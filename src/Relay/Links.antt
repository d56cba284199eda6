-- ===== src/Relay/Links.antt =====
-- What `link` keeps and returns.
use fbf_3ds_servers.Base.{
  ℕ, ◌≡◌, ◌≢◌, refl, ◌⊎◌, inl, inr, Option, none, some, List, Str, ap, ◌∙◌, str_eq, str_beq_iff,
  lookup, lookup-insert, lookup-insert_self, beq_ne, sym, insert, Option-cases, arith,
}
use fbf_3ds_servers.Relay.{
  RelayLink, RelayManager, Sockets, pair_key, new_link, open_udp, next_host, open_second, open_link,
  link,
}
use fbf_3ds_servers.Relay.Keys.{pair_key_iff}

-- The link is for these two consoles, in either order.
abbrev pub Joins : RelayLink → ℕ → ℕ → Type 0
Joins l a b = ((l.pid_a ≡ a) × (l.pid_b ≡ b)) ⊎ ((l.pid_a ≡ b) × (l.pid_b ≡ a))

-- Each link stands under the key of its own pair.
abbrev pub IsValid : RelayManager → Type 0
IsValid rm = (k : Str) (l : RelayLink) → lookup k rm.links ≡ some l → k ≡ pair_key l.pid_a l.pid_b

insert-IsValid :
    (a b : ℕ) (k : Str) (l l' : RelayLink) (rm : RelayManager)
    → IsValid rm
    → l'.pid_a ≡ a
    → l'.pid_b ≡ b
    → lookup k (insert (pair_key a b) l' rm.links) ≡ some l
    → k ≡ pair_key l.pid_a l.pid_b
insert-IsValid a b k l l' rm v ea eb h =
    ground (arith, lookup-insert (pair_key a b) k l' rm.links, str_beq_iff (pair_key a b) k, v k l)

module _ (net : Sockets) where
  open net use {Os}

  -- What opening a link from the manager `rm` does to the manager, and what it returns.
  abbrev pub Opened : ℕ → ℕ → Str → RelayManager → Option RelayLink × RelayManager × Os → Type 0
  Opened a b host rm r =
      ((r.0 ≡ none) × (r.1 ≡ rm))
      ⊎ ((pa pb : ℕ) × (r.0 ≡ some (new_link a b host pa pb rm.public_host))
          × (r.1 ≡ record rm {
            links = insert (pair_key a b) (new_link a b host pa pb rm.public_host) rm.links;
          }))

  open_second-Opened :
      (a b : ℕ) (host : Str) (pa : ℕ) (rm : RelayManager) (os : Os)
      → Opened a b host rm (open_second net a b host pa rm os)
  unfolding open_second
  open_second-Opened a b host pa rm os = elim (Option-cases (open_udp net host os).0) [
    | inl e ↦ inl (rw (e, open_second), rw (e, open_second))
    | inr (pb, e) ↦ inr (pa, pb, rw (e, open_second), rw (e, open_second))
  ]

  open_link-Opened :
      (a b : ℕ) (host : Str) (rm : RelayManager) (os : Os)
      → Opened a b host rm (open_link net a b host rm os)
  unfolding open_link
  open_link-Opened a b host rm os = elim (Option-cases (open_udp net host os).0) [
    | inl e ↦ inl (rw (e, open_link), rw (e, open_link))
    | inr (pa, e) ↦ rw (e, open_link) (open_second-Opened a b host pa rm (open_udp net host os).1)
  ]

  pub next_host-links : (rm : RelayManager) → (next_host net rm).1.links ≡ rm.links
  unfolding next_host
  next_host-links rm = ground arith

  -- A pair whose key is in the map gets its link, and nothing changes.
  pub link_found :
      (a b : ℕ) (rm : RelayManager) (os : Os) {l : RelayLink}
      → lookup (pair_key a b) rm.links ≡ some l
      → link net a b rm os ≡ (some l, rm, os)
  unfolding link
  link_found a b rm os h = rw (h, link)

  -- A pair whose key is not in the map: the cursor moves, and sockets are opened.
  pub link_new :
      (a b : ℕ) (rm : RelayManager) (os : Os)
      → lookup (pair_key a b) rm.links ≡ none
      → Opened a b (next_host net rm).0 (next_host net rm).1 (link net a b rm os)
  unfolding link
  link_new a b rm os h =
      rw (h, link) (open_link-Opened a b (next_host net rm).0 (next_host net rm).1 os)

  pub link_stored :
      (a b : ℕ) (rm : RelayManager) (os : Os) {l : RelayLink}
      → (link net a b rm os).0 ≡ some l
      → lookup (pair_key a b) (link net a b rm os).1.links ≡ some l
  link_stored a b rm os {l} h = elim (Option-cases (lookup (pair_key a b) rm.links)) [
    | inl new ↦ elim (link_new a b rm os new) [
      | inl (e, _) ↦ cc
      | inr (pa, pb, e, same) ↦
          rw (same, lookup-insert_self (pair_key a b) _ (next_host net rm).1.links) (cc)
    ]
    | inr (l', old) ↦ rw (link_found a b rm os old, old) (cc (link_found a b rm os old))
  ]

  -- Every other pair keeps the link that it had, or goes on having none; this also where a socket
  -- cannot be opened.
  pub link_keeps :
      (a b c d : ℕ) (rm : RelayManager) (os : Os)
      → pair_key a b ≢ pair_key c d
      → lookup (pair_key c d) (link net a b rm os).1.links ≡ lookup (pair_key c d) rm.links
  link_keeps a b c d rm os h = elim (Option-cases (lookup (pair_key a b) rm.links)) [
    | inl new ↦ elim (link_new a b rm os new) [
      | inl (_, same) ↦ rw (same, next_host-links rm)
      | inr (pa, pb, _, same) ↦ rw (
        same,
        lookup-insert (pair_key a b) (pair_key c d) _ (next_host net rm).1.links,
        beq_ne (pair_key a b) (pair_key c d) h,
        next_host-links rm,
      )
    ]
    | inr (l', old) ↦ rw (link_found a b rm os old)
  ]

  -- What newRelayManager and setHosts decide stays.
  abbrev setup : RelayManager → Str × List Str
  setup rm = (rm.public_host, rm.hosts)

  next_host-setup : (rm : RelayManager) → setup (next_host net rm).1 ≡ setup rm
  unfolding next_host
  next_host-setup rm = ground arith

  pub link-setup : (a b : ℕ) (rm : RelayManager) (os : Os) → setup (link net a b rm os).1 ≡ setup rm
  link-setup a b rm os = elim (Option-cases (lookup (pair_key a b) rm.links)) [
    | inr (l, old) ↦ ap (λ r. setup r.1) (link_found a b rm os old)
    | inl new ↦ elim (link_new a b rm os new) [
      | inl (_, same) ↦ ap setup same ∙ next_host-setup rm
      | inr (pa, pb, _, same) ↦ ap setup same ∙ next_host-setup rm
    ]
  ]

  -- Opening links keeps each one under the key of its own pair.
  pub link-IsValid :
      (a b : ℕ) (rm : RelayManager) (os : Os) → IsValid rm → IsValid (link net a b rm os).1
  unfolding new_link
  link-IsValid a b rm os v k l h = elim (Option-cases (lookup (pair_key a b) rm.links)) [
    | inl new ↦ elim (link_new a b rm os new) [
      | inl (_, same) ↦ v k l (rw (same, next_host-links rm) at h)
      | inr (pa, pb, _, same) ↦
          insert-IsValid a b k l
            (new_link a b (next_host net rm).0 pa pb (next_host net rm).1.public_host) rm v refl
            refl (rw (same, next_host-links rm) at h)
    ]
    | inr (l', old) ↦ v k l (rw (link_found a b rm os old) at h)
  ]

  -- From a valid map, the link that is returned joins the two consoles that were asked for.
  pub link-Joins :
      (a b : ℕ) (rm : RelayManager) (os : Os) {l : RelayLink}
      → IsValid rm
      → (link net a b rm os).0 ≡ some l
      → Joins l a b
  link-Joins a b rm os {l} v h =
      let e = link-IsValid a b rm os v (pair_key a b) l (link_stored a b rm os h) in
      elim ((pair_key_iff a b l.pid_a l.pid_b).0 e) [
        | inl (p, q) ↦ inl (sym p, sym q)
        | inr (p, q) ↦ inr (sym q, sym p)
      ]
