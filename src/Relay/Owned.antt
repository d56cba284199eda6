-- ===== src/Relay/Owned.antt =====
-- The sockets of the relay: each belongs to one link, and none is left open.
use mathlib.Core.Path.{subst}
use mathlib.Core.List.{Mem, Perm, Nodup, Nodup-nil, Nodup-cons, perm_middle}
use mathlib.Core.List.Perm
use fbf_3ds_servers.Base.{
  ℕ, ◌≡◌, refl, sym, ap, ◌∙◌, inl, inr, none, some, List, [], ◌∷◌, Str, str_eq, str_beq, lookup,
  insert, Option-cases, Bool-cases, arith,
}
use fbf_3ds_servers.Relay.{
  RelayLink, RelayManager, Sockets, bind_ip, pair_key, new_link, open_udp, new_relay_manager,
  set_hosts, next_host, open_second, open_link, link,
}
use fbf_3ds_servers.Relay.Links.{next_host-links}
use fbf_3ds_servers.Relay.History.{Call, new_pool, wanted, calls}

-- An open socket: its address and port.
abbrev pub Socket : Type 0
Socket = Str × ℕ

-- What the operating system promises: a new socket is none of the open ones, a failure opens
-- nothing, and the last socket is gone when it is closed.
pub record IsOs (net : Sockets) : Type 0 where
  pub sockets : net.Os → List Socket
  pub listen_new :
      (ip : Str) (os : net.Os) {p : ℕ}
      → (net.listen_udp ip os).0 ≡ some p
      → (Mem (ip, p) (sockets os) → ⊥) × (sockets (net.listen_udp ip os).1 ≡ (ip, p) ∷ sockets os)
  pub listen_failed :
      (ip : Str) (os : net.Os)
      → (net.listen_udp ip os).0 ≡ none
      → sockets (net.listen_udp ip os).1 ≡ sockets os
  pub close_last :
      (ip : Str) (p : ℕ) (os : net.Os) {rest : List Socket}
      → sockets os ≡ (ip, p) ∷ rest
      → sockets (net.close ip p os) ≡ rest

-- The sockets are those of the links, two for each, at one address.
abbrev pub Owns : List (Str × RelayLink) → List Socket → Type 0
Owns [] socks = socks ≡ []
Owns ((k, l) ∷ m) socks =
    (ip : Str) × (rest : List Socket) × Perm socks ((ip, l.port_a) ∷ (ip, l.port_b) ∷ rest)
    × Owns m rest

Owns-insert :
    (k : Str) (l : RelayLink) (m : List (Str × RelayLink)) (socks : List Socket) (ip : Str)
    → lookup k m ≡ none
    → Owns m socks
    → Owns (insert k l m) ((ip, l.port_b) ∷ (ip, l.port_a) ∷ socks)
unfolding insert lookup
Owns-insert k l [] socks ip new h = (ip, [], rw h (Perm.swap _ _ []), refl)
Owns-insert k l ((j, w) ∷ m) socks ip new (ip', rest, perm, h) = elim (Bool-cases (str_beq j k)) [
  | inl same ↦ absurd (ground arith)
  | inr other ↦
      let a : Socket = (ip, l.port_a) in
      let b : Socket = (ip, l.port_b) in
      rw other (
        ip',
        b ∷ a ∷ rest,
        Perm.trans (Perm.cons b (Perm.cons a perm)) (
            Perm.trans (perm_middle (b ∷ a ∷ []) ((ip', w.port_b) ∷ rest))
              (Perm.cons (ip', w.port_a) (perm_middle (b ∷ a ∷ []) rest))),
        Owns-insert k l m rest ip (ground arith) h,
      )
]

module _ (net : Sockets) (laws : IsOs net) where
  -- Each open socket belongs to one link, and no two sockets are the same.
  pub record IsOwned (rm : RelayManager) (os : net.Os) : Type 0 where
    pub owns : Owns rm.links (laws.sockets os)
    pub distinct : Nodup (laws.sockets os)

  bound :
      (host : Str) (os : net.Os) {p : ℕ}
      → (open_udp net host os).0 ≡ some p
      → Nodup (laws.sockets os)
      → (laws.sockets (open_udp net host os).1 ≡ (bind_ip net host, p) ∷ laws.sockets os)
        × Nodup ((bind_ip net host, p) ∷ laws.sockets os)
  unfolding open_udp
  bound host os e d =
      let (fresh, opened) = laws.listen_new (bind_ip net host) os e in
      (opened, Nodup-cons.1 (fresh, d))

  unbound :
      (host : Str) (os : net.Os)
      → (open_udp net host os).0 ≡ none
      → laws.sockets (open_udp net host os).1 ≡ laws.sockets os
  unfolding open_udp
  unbound host os e = laws.listen_failed (bind_ip net host) os e

  open_second-IsOwned :
      (a b : ℕ) (host : Str) (pa : ℕ) (rm : RelayManager) (os : net.Os) (socks : List Socket)
      → lookup (pair_key a b) rm.links ≡ none
      → Owns rm.links socks
      → Nodup socks
      → laws.sockets os ≡ (bind_ip net host, pa) ∷ socks
      → Nodup (laws.sockets os)
      → IsOwned (open_second net a b host pa rm os).1 (open_second net a b host pa rm os).2
  unfolding open_second new_link
  open_second-IsOwned a b host pa rm os socks new owns d e d1 =
      elim (Option-cases (open_udp net host os).0) [
        | inl failed ↦
            let same =
              laws.close_last (bind_ip net host) pa (open_udp net host os).1
                (unbound host os failed ∙ e) in
            rw (failed, open_second)
              (record {
                owns = subst (Owns rm.links) (sym same) owns;
                distinct = subst Nodup (sym same) d;
              })
        | inr (pb, done) ↦
            let (opened, d2) = bound host os done d1 in
            let l = new_link a b host pa pb rm.public_host in
            rw (done, open_second)
              (record {
                owns =
                    subst (Owns (insert (pair_key a b) l rm.links))
                      (sym (opened ∙ ap (◌∷◌ (bind_ip net host, pb)) e))
                      (Owns-insert (pair_key a b) l rm.links socks (bind_ip net host) new owns);
                distinct = subst Nodup (sym opened) d2;
              })
      ]

  open_link-IsOwned :
      (a b : ℕ) (host : Str) (rm : RelayManager) (os : net.Os)
      → lookup (pair_key a b) rm.links ≡ none
      → IsOwned rm os
      → IsOwned (open_link net a b host rm os).1 (open_link net a b host rm os).2
  unfolding open_link
  open_link-IsOwned a b host rm os new h = elim (Option-cases (open_udp net host os).0) [
    | inl failed ↦
        let same = unbound host os failed in
        rw (failed, open_link)
          (record {
            owns = subst (Owns rm.links) (sym same) h.owns;
            distinct = subst Nodup (sym same) h.distinct;
          })
    | inr (pa, done) ↦
        let (opened, d) = bound host os done h.distinct in
        rw (done, open_link)
          (open_second-IsOwned a b host pa rm (open_udp net host os).1 (laws.sockets os) new h.owns
            h.distinct opened (subst Nodup (sym opened) d))
  ]

  pub link-IsOwned :
      (a b : ℕ) (rm : RelayManager) (os : net.Os)
      → IsOwned rm os
      → IsOwned (link net a b rm os).1 (link net a b rm os).2
  unfolding link
  link-IsOwned a b rm os h = elim (Option-cases (lookup (pair_key a b) rm.links)) [
    | inr (l, old) ↦ rw (old, link) h
    | inl new ↦
        rw (new, link)
          (open_link-IsOwned a b (next_host net rm).0 (next_host net rm).1 os
            (ap (lookup (pair_key a b)) (next_host-links net rm) ∙ new)
            (record {
              owns = subst (λ m. Owns m (laws.sockets os)) (sym (next_host-links net rm)) h.owns;
              distinct = h.distinct;
            }))
  ]

  calls-IsOwned :
      (cs : List Call) (rm : RelayManager) (os : net.Os)
      → IsOwned rm os
      → IsOwned (calls net cs rm os).0 (calls net cs rm os).1
  unfolding calls set_hosts
  calls-IsOwned [] rm os h = h
  calls-IsOwned (new_pool hosts ∷ cs) rm os h =
      calls-IsOwned cs (set_hosts hosts rm) os (record { owns = h.owns; distinct = h.distinct })
  calls-IsOwned (wanted a b ∷ cs) rm os h =
      calls-IsOwned cs (link net a b rm os).1 (link net a b rm os).2 (link-IsOwned a b rm os h)

  -- From a new manager on, with no socket open, whatever links are asked for, whatever pools are set,
  -- and wherever sockets cannot be opened: the open sockets are exactly two for each link, both at
  -- one address. So none is left behind by a link that could not be opened, and no two links, and no
  -- two sides of a link, share one.
  pub new-IsOwned :
      (host : Str) (os : net.Os) (cs : List Call)
      → laws.sockets os ≡ []
      → IsOwned
          (calls net cs (new_relay_manager host) os).0
          (calls net cs (new_relay_manager host) os).1
  unfolding new_relay_manager
  new-IsOwned host os cs none_open =
      calls-IsOwned cs (new_relay_manager host) os
        (record { owns = none_open; distinct = subst Nodup (sym none_open) Nodup-nil })
