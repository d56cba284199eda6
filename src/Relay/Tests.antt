-- ===== src/Relay/Tests.antt =====
-- The relay at concrete inputs: sockets that are handed out in order from port 50000.
use mathlib.Core.Quot
use mathlib.Core.Logic.{∥∥₁_elim}
use mathlib.Core.List.{Memᴰ, Mem}
use fbf_3ds_servers.Base.{
  Option, none, str_beq, str_beq_iff, nat_beq, ltb, if◌then◌else◌, Bool-cases, inr, ◌&&◌, ap, ◌∙◌,
  ◌≤◌, ℕ, zero, suc, ◌<◌, ◌+◌, get_elem?, ◌≡◌, ◌≢◌, inl, refl, some, List, [], ◌∷◌, ◌++◌, Str, txt,
  str_ne, lookup, insert, format_uint, str_eq, length, arith,
}
use fbf_3ds_servers.Relay.{
  RelayLink, RelayManager, Sockets, new_relay_manager, set_hosts, pair_key, new_link, endpoint_for,
  next_host, open_udp, open_second, open_link, link,
}
use fbf_3ds_servers.Relay.Links.{Joins}
use fbf_3ds_servers.Relay.Pairs.{view, Asks, link-Asks}
use fbf_3ds_servers.Relay.History.{Call, wanted, new_pool, calls, later, Again, calls_once}
use fbf_3ds_servers.Relay.Owned.{Socket, IsOs, IsOwned, new-IsOwned}
use fbf_3ds_servers.Relay.Hosts.{IsPool, hosts_differ}
use fbf_3ds_servers.Relay.Collision.{three_consoles}
use fbf_3ds_servers.Relay.Pump.{Addr, Datagram, no_peers, pump, pump-transparent, IsOpen, relayed}

abbrev counting : Sockets
counting = record {
  Os = ℕ;
  listen_udp = λ ip os. (some os, os + 1);
  close = λ ip port os. os;
  parse_ip = some;
}

program : Unit {0}
unfolding link open_link open_second open_udp next_host new_link pair_key new_relay_manager
    set_hosts lookup insert format_uint endpoint_for
program = tt

pair_key_test : pair_key 1900 17 ≡ txt "17-1900"
unfolding program
pair_key_test = refl

abbrev pool : List Str
pool = txt "10.0.0.1" ∷ txt "10.0.0.2" ∷ []

abbrev fresh : RelayManager
fresh = record { public_host = txt "10.0.0.95"; hosts = pool; host_seq = 0; links = [] }

abbrev ab : RelayLink
ab = record { pid_a = 10; pid_b = 11; host = txt "10.0.0.1"; port_a = 50000; port_b = 50001 }

abbrev linked : RelayManager
linked = record fresh { host_seq = 1; links = (txt "10-11", ab) ∷ [] }

link_test : link counting 10 11 fresh 50000 ≡ (some ab, linked, 50002)
unfolding program
link_test = refl

abbrev alice : ℕ
alice = 10

abbrev bob : ℕ
bob = 11

abbrev carol : ℕ
carol = 12

abbrev link_for_bob : RelayLink
link_for_bob = record {
  pid_a = 10;
  pid_b = 11;
  host = txt "10.0.0.95";
  port_a = 50002;
  port_b = 50003;
}

abbrev others : List Call
others = new_pool pool ∷ wanted 10 12 ∷ wanted 11 10 ∷ []

calls_once_example :
    Joins link_for_bob 10 11
    × Again counting link_for_bob 10 11
        (later counting (txt "10.0.0.95") 50000 (wanted 11 12 ∷ []) 10 11 others)
    × Again counting link_for_bob 11 10
        (later counting (txt "10.0.0.95") 50000 (wanted 11 12 ∷ []) 10 11 others)
unfolding program calls
calls_once_example =
    calls_once counting (txt "10.0.0.95") 50000 (wanted 11 12 ∷ []) others 10 11 {l = link_for_bob}
      refl

pool_ne : txt "10.0.0.1" ≢ txt "10.0.0.2"
pool_ne = str_ne (txt "10.0.0.1") (txt "10.0.0.2") refl

pool_distinct :
    (i j : ℕ) (h : Str)
    → get_elem? pool i ≡ some h
    → get_elem? pool j ≡ some h
    → i < length pool
    → j < length pool
    → i ≡ j
pool_distinct zero zero h p q _ _ = refl
pool_distinct zero (suc zero) h p q _ _ = absurd (pool_ne (cc))
pool_distinct (suc zero) zero h p q _ _ = absurd (pool_ne (cc))
pool_distinct (suc zero) (suc zero) h p q _ _ = refl
pool_distinct zero (suc (suc j)) h p q _ k = absurd (omega arith)
pool_distinct (suc zero) (suc (suc j)) h p q _ k = absurd (omega arith)
pool_distinct (suc (suc i)) j h p q k _ = absurd (omega arith)

pool-IsPool : IsPool pool
pool-IsPool = record { filled = ground arith; some_host = omega arith; distinct = pool_distinct }

abbrev bc : RelayLink
bc = record { pid_a = 11; pid_b = 12; host = txt "10.0.0.2"; port_a = 50002; port_b = 50003 }

hosts_differ_example : ab.host ≢ bc.host
unfolding program calls
hosts_differ_example =
    hosts_differ counting 10 11 11 12 [] fresh 50000 {l = ab} {l' = bc} pool-IsPool (omega arith)
      refl refl refl refl

abbrev ac : RelayLink
ac = record { pid_a = 10; pid_b = 12; host = txt "10.0.0.1"; port_a = 50004; port_b = 50005 }

three_consoles_example : ab.host ≡ ac.host
unfolding program
three_consoles_example =
    three_consoles counting 10 11 12 fresh 50000 50002 50004 {ab = ab} {ac = ac} (omega arith)
      (omega arith) (omega arith) pool-IsPool refl refl refl refl refl refl

abbrev at_alice : Addr
at_alice = record { ip = txt "192.0.2.1"; port = 4000 }

abbrev at_bob : Addr
at_bob = record { ip = txt "192.0.2.2"; port = 4001 }

abbrev from_bob : Datagram
from_bob = record { port = 50000; src = at_bob; body = txt "hi" }

abbrev from_alice : Datagram
from_alice = record { port = 50001; src = at_alice; body = txt "yo" }

ab-IsOpen : IsOpen ab 10 11
ab-IsOpen = record {
  joins = inl (refl, refl);
  apart = omega arith;
  others = omega arith;
  fits_a = omega arith;
  fits_b = omega arith;
}

pump_test :
    (pump ab no_peers (from_bob ∷ from_alice ∷ [])).1
    ≡ record { from_port = 50000; to_addr = at_bob; bytes = txt "yo" } ∷ []
unfolding pump
pump_test = refl

pump-transparent_example :
    (pump ab no_peers ((from_bob ∷ []) ++ from_alice ∷ [])).1
    ≡ (pump ab no_peers (from_bob ∷ [])).1
      ++ relayed (endpoint_for ab 10) (from_bob ∷ []) from_alice
unfolding endpoint_for
pump-transparent_example = pump-transparent ab 10 11 (from_bob ∷ []) from_alice ab-IsOpen refl

link-Asks_example :
    Asks
      (view linked)
      (Quot.mk (bob, alice))
      (link counting bob alice linked 50002).0
      (view (link counting bob alice linked 50002).1)
link-Asks_example = link-Asks counting bob alice linked 50002

-- An operating system that is its list of open sockets: a new port is above all of them, and the
-- address `down` cannot be bound.
abbrev highest : List Socket → ℕ
highest [] = 0
highest ((ip, p) ∷ socks) = if ltb (highest socks) p then p else highest socks

abbrev bind : Str → List Socket → Option ℕ × List Socket
bind ip socks =
    if str_beq ip (txt "down")
    then (none, socks)
    else (some (highest socks + 1), (ip, highest socks + 1) ∷ socks)

abbrev drop : Str → ℕ → List Socket → List Socket
drop ip p [] = []
drop ip p ((j, q) ∷ socks) =
    let rest = drop ip p socks in if str_beq j ip && nat_beq q p then socks else (j, q) ∷ rest

abbrev listing : Sockets
listing = record { Os = List Socket; listen_udp = bind; close = drop; parse_ip = some }

Memᴰ-highest : (ip : Str) (p : ℕ) (socks : List Socket) → Memᴰ (ip, p) socks → p ≤ highest socks
Memᴰ-highest ip p [] m = elim m [ ]
Memᴰ-highest ip p ((j, q) ∷ socks) (Memᴰ.head e) =
    let same : p ≡ q = ap (λ x. x.1) e in ground arith
Memᴰ-highest ip p ((j, q) ∷ socks) (Memᴰ.tail m) =
    let below = Memᴰ-highest ip p socks m in ground arith

fresh_port : (ip : Str) (p : ℕ) (socks : List Socket) → highest socks < p → Mem (ip, p) socks → ⊥
fresh_port ip p socks h m =
    ∥∥₁_elim m (hlevel) (λ d. absurd (omega (arith, Memᴰ-highest ip p socks d)))

bind_new :
    (ip : Str) (socks : List Socket) {p : ℕ}
    → (bind ip socks).0 ≡ some p
    → (Mem (ip, p) socks → ⊥) × ((bind ip socks).1 ≡ (ip, p) ∷ socks)
bind_new ip socks {p} e = elim (Bool-cases (str_beq ip (txt "down"))) [
  | inl down ↦ absurd (ground arith)
  | inr up ↦
      let same : highest socks + 1 ≡ p = ground arith in
      (fresh_port ip p socks (omega arith), rw up (ap (λ q. (ip, q) ∷ socks) same))
]

drop_last : (ip : Str) (p : ℕ) (rest : List Socket) → drop ip p ((ip, p) ∷ rest) ≡ rest
drop_last ip p rest = ground (arith, str_beq_iff ip ip)

listing-IsOs : IsOs listing
listing-IsOs = record {
  sockets = λ os. os;
  listen_new = λ ip os {p} e. bind_new ip os e;
  listen_failed = λ ip os e. ground arith;
  close_last = λ ip p os {rest} e. ap (drop ip p) e ∙ drop_last ip p rest;
}

abbrev requests : List Call
requests =
    wanted alice bob
    ∷ new_pool (txt "10.0.0.1" ∷ txt "down" ∷ [])
    ∷ wanted bob carol
    ∷ wanted alice carol
    ∷ []

new-IsOwned_example :
    IsOwned listing listing-IsOs
      (calls listing requests (new_relay_manager (txt "10.0.0.95")) []).0
      (calls listing requests (new_relay_manager (txt "10.0.0.95")) []).1
unfolding listing-IsOs
new-IsOwned_example = new-IsOwned listing listing-IsOs (txt "10.0.0.95") [] requests refl
