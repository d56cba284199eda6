-- ===== src/Relay/Pump.antt =====
-- The pumps of one link (server/relay.go, pump): what arrives on one socket is forwarded from the
-- other to the address last seen there.
use mathlib.Core.List.{append-nil, append_assoc}
use fbf_3ds_servers.Base.{
  ℕ, ◌<◌, ◌≡◌, ◌≢◌, ◌⊎◌, inl, inr, ap, ◌∙◌, refl, Option, none, some, List, [], ◌∷◌, ◌++◌,
  if◌then◌else◌, Str, take, nat_beq, arith, sym,
}
use fbf_3ds_servers.Relay.{RelayLink, endpoint_for}

-- A UDP address: IP and port.
pub record Addr : Type 0 where
  pub ip : Str
  pub port : ℕ

-- `addrA` and `addrB` of a link: none is the nil pointer before the first packet.
pub record Peers : Type 0 where
  pub addr_a : Option Addr
  pub addr_b : Option Addr

-- A datagram read from a socket of the link, named by its port.
pub record Datagram : Type 0 where
  pub port : ℕ
  pub src : Addr
  pub body : Str

-- A write: the port of the socket it leaves from, the destination and the bytes.
pub record Sent : Type 0 where
  pub from_port : ℕ
  pub to_addr : Addr
  pub bytes : Str

-- The buffer of 2048 bytes cuts a longer datagram.
abbrev pub buffer_size : ℕ
buffer_size = 2048

forward : ℕ → Option Addr → Str → List Sent
forward out none body = []
forward out (some dst) body =
    record { from_port = out; to_addr = dst; bytes = take buffer_size body } ∷ []

-- One round of the loop of the pump that reads the datagram's socket. `l.pump(l.sockB, l.sockA,
-- &l.addrA, &l.addrB)` serves port B, `l.pump(l.sockA, l.sockB, &l.addrB, &l.addrA)` serves port A.
-- The store of the source and the load of the destination are taken as one step.
pub pump_step : RelayLink → Peers → Datagram → Peers × List Sent
unfolding forward
pump_step l s d =
    if nat_beq d.port l.port_b
    then (record s { addr_a = some d.src }, forward l.port_a s.addr_b d.body)
    else if nat_beq d.port l.port_a
    then (record s { addr_b = some d.src }, forward l.port_b s.addr_a d.body)
    else (s, [])

-- A link at work: all that it sends for the datagrams that arrive, in their order.
unfoldable pub pump : RelayLink → Peers → List Datagram → Peers × List Sent
unfolding pump_step
pump l s [] = (s, [])
pump l s (d ∷ ds) =
    let next = pump_step l s d in let rest = pump l next.0 ds in (rest.0, next.1 ++ rest.1)

abbrev pub no_peers : Peers
no_peers = record { addr_a = none; addr_b = none }

-- The last sender to a port.
pub last_at : ℕ → List Datagram → Option Addr
last_at p [] = none
last_at p (d ∷ ds) = elim (last_at p ds) [
  | some a ↦ some a
  | none ↦ if nat_beq d.port p then some d.src else none
]

-- A later sender, if there is one.
abbrev later : Option Addr → Option Addr → Option Addr
later none old = old
later (some a) old = some a

-- What the history makes of a datagram on one port: it goes out of the other, to whoever was last
-- heard there, and nowhere if nobody was.
abbrev pub relayed : ℕ → List Datagram → Datagram → List Sent
relayed out ds d = elim (last_at out ds) [
  | none ↦ []
  | some dst ↦ record { from_port = out; to_addr = dst; bytes = take buffer_size d.body } ∷ []
]

module _ (l : RelayLink) (apart : l.port_a ≢ l.port_b) where
  pump-peers :
      (s : Peers) (ds : List Datagram)
      → ((pump l s ds).0.addr_a ≡ later (last_at l.port_b ds) s.addr_a)
        × ((pump l s ds).0.addr_b ≡ later (last_at l.port_a ds) s.addr_b)
  unfolding pump last_at
  pump-peers s [] = (refl, refl)
  pump-peers s (d ∷ ds) = ground (arith, pump-peers (pump_step l s d).0 ds)

  pump-append :
      (s : Peers) (ds : List Datagram) (d : Datagram)
      → (pump l s (ds ++ d ∷ [])).1 ≡ (pump l s ds).1 ++ (pump_step l (pump l s ds).0 d).1
  unfolding pump
  pump-append s [] d = append-nil _
  pump-append s (e ∷ ds) d =
      rw (pump-append (pump_step l s e).0 ds d) (sym (append_assoc (pump_step l s e).1 _ _))

  step-relayed :
      (ds : List Datagram) (d : Datagram)
      → (d.port ≡ l.port_b → (pump_step l (pump l no_peers ds).0 d).1 ≡ relayed l.port_a ds d)
        × (d.port ≡ l.port_a → (pump_step l (pump l no_peers ds).0 d).1 ≡ relayed l.port_b ds d)
  unfolding pump_step
  step-relayed ds d = ground (arith, pump-peers no_peers ds)

-- A link between two consoles, with two ports of 16 bits that differ.
pub record IsOpen (l : RelayLink) (x y : ℕ) : Type 0 where
  pub joins : ((l.pid_a ≡ x) × (l.pid_b ≡ y)) ⊎ ((l.pid_a ≡ y) × (l.pid_b ≡ x))
  pub apart : l.port_a ≢ l.port_b
  pub others : x ≢ y
  pub fits_a : l.port_a < 65536
  pub fits_b : l.port_b < 65536

-- The two ports as the two consoles know them: `x` reaches `y` by the socket of `y`'s side.
endpoints :
    (l : RelayLink) (x y : ℕ)
    → IsOpen l x y
    → ((endpoint_for l x ≡ l.port_a) × (endpoint_for l y ≡ l.port_b))
      ⊎ ((endpoint_for l x ≡ l.port_b) × (endpoint_for l y ≡ l.port_a))
unfolding endpoint_for
endpoints l x y o = elim o.joins [
  | inl (p, q) ↦ inl (ground arith, ground arith)
  | inr (p, q) ↦ inr (ground arith, ground arith)
]

-- On a link that joins two different consoles over two different ports of 16 bits, what console
-- `x` sends to the port that it was given for `y` goes out of the port that `y` was given for `x`,
-- to the address from which `y` last sent to that port, cut to the buffer; it goes nowhere while
-- `y` has sent nothing. What was sent before stays as it was.
pub pump-transparent :
    (l : RelayLink) (x y : ℕ) (ds : List Datagram) (d : Datagram)
    → IsOpen l x y
    → d.port ≡ endpoint_for l y
    → (pump l no_peers (ds ++ d ∷ [])).1 ≡ (pump l no_peers ds).1 ++ relayed (endpoint_for l x) ds d
pump-transparent l x y ds d o e = elim (endpoints l x y o) [
  | inl (px, py) ↦
      rw (px, pump-append l o.apart no_peers ds d)
        (ap (λ sent. (pump l no_peers ds).1 ++ sent) ((step-relayed l o.apart ds d).0 (e ∙ py)))
  | inr (px, py) ↦
      rw (px, pump-append l o.apart no_peers ds d)
        (ap (λ sent. (pump l no_peers ds).1 ++ sent) ((step-relayed l o.apart ds d).1 (e ∙ py)))
]
