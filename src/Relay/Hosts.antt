-- ===== src/Relay/Hosts.antt =====
-- Which address of the pool a new link presents.
use native.Mathlib.Nat.{mod-lt}
use fbf_3ds_servers.Base.{
  ℕ, ◌+◌, ◌-◌, ◌%◌, ◌<◌, ◌≤◌, ◌∷◌, Option-cases, ◌≡◌, ◌≢◌, refl, sym, ap, ◌∙◌, inl, inr, none, some,
  List, [], Str, str_eq, str_beq_iff, lookup, length, get_elem?, get_elem?_of_lt, All,
  All-get_elem?, arith,
}
use fbf_3ds_servers.Relay.{RelayLink, RelayManager, Sockets, pair_key, new_link, next_host, link}
use fbf_3ds_servers.Relay.Links.{link_found, link_new}
use fbf_3ds_servers.Relay.History.{Call, wanted, calls}

mod_shift : (s d n : ℕ) → 0 < d → d < n → (s + d) % n ≢ s % n
mod_shift s d n p q = λ e. grind arith

mod_round : (s n : ℕ) → 0 < n → (s + n) % n ≡ s % n
mod_round s n p = grind arith

-- No address of the pool is empty, and none stands twice.
pub record IsPool (hosts : List Str) : Type 0 where
  pub filled : All (λ h. h ≢ []) hosts
  pub some_host : 0 < length hosts
  pub distinct :
      (i j : ℕ) (h : Str)
      → get_elem? hosts i ≡ some h
      → get_elem? hosts j ≡ some h
      → i < length hosts
      → j < length hosts
      → i ≡ j

new_link-host :
    (a b pa pb : ℕ) (h public_host : Str) → h ≢ [] → (new_link a b h pa pb public_host).host ≡ h
unfolding new_link
new_link-host a b pa pb h public_host filled = ground (arith, str_beq_iff h [])

module _ (net : Sockets) where
  open net use {Os}

  next_host_pool :
      (rm : RelayManager) (x : Str)
      → 0 < length rm.hosts
      → get_elem? rm.hosts (rm.host_seq % length rm.hosts) ≡ some x
      → next_host net rm ≡ (x, record rm { host_seq = rm.host_seq + 1 })
  unfolding next_host
  next_host_pool rm x p e = ground arith

  -- In distinct-IP mode a new link presents the address under the cursor.
  pub link-host :
      (a b : ℕ) (rm : RelayManager) (os : Os) {l : RelayLink}
      → IsPool rm.hosts
      → lookup (pair_key a b) rm.links ≡ none
      → (link net a b rm os).0 ≡ some l
      → get_elem? rm.hosts (rm.host_seq % length rm.hosts) ≡ some l.host
  link-host a b rm os {l} p new h =
      let (x, e) =
        get_elem?_of_lt rm.hosts (rm.host_seq % length rm.hosts) (mod-lt _ p.some_host) in
      let filled : x ≢ [] = All-get_elem? (λ h. h ≢ []) rm.hosts _ p.filled e in
      let next = next_host_pool rm x p.some_host e in
      elim (link_new net a b rm os new) [
        | inl (back, _) ↦ cc
        | inr (pa, pb, back, _) ↦
            let same : l.host ≡ x = ground (
              arith,
              new_link-host a b pa pb (next_host net rm).0 (next_host net rm).1.public_host,
            ) in
            rw (same, e)
      ]

  -- Opening a new link moves the cursor by one, whether or not the sockets can be opened.
  pub link-host_seq :
      (a b : ℕ) (rm : RelayManager) (os : Os)
      → 0 < length rm.hosts
      → lookup (pair_key a b) rm.links ≡ none
      → ((link net a b rm os).1.host_seq ≡ rm.host_seq + 1)
        × ((link net a b rm os).1.hosts ≡ rm.hosts)
  link-host_seq a b rm os p new =
      let (x, e) = get_elem?_of_lt rm.hosts (rm.host_seq % length rm.hosts) (mod-lt _ p) in
      let next = next_host_pool rm x p e in
      elim (link_new net a b rm os new) [
        | inl (_, same) ↦ rw (same, next) (refl, refl)
        | inr (pa, pb, _, same) ↦ rw (same, next) (refl, refl)
      ]

  -- Links that are fewer than a pool's size apart on the cursor.
  apart_differ :
      (a b c d : ℕ) (rm rm' : RelayManager) (os os' : Os) {l l' : RelayLink}
      → IsPool rm.hosts
      → rm'.hosts ≡ rm.hosts
      → rm.host_seq < rm'.host_seq
      → rm'.host_seq < rm.host_seq + length rm.hosts
      → lookup (pair_key a b) rm.links ≡ none
      → lookup (pair_key c d) rm'.links ≡ none
      → (link net a b rm os).0 ≡ some l
      → (link net c d rm' os').0 ≡ some l'
      → l.host ≢ l'.host
  apart_differ a b c d rm rm' os os' {l} {l'} p same above below new new' h h' = λ e.
      let n = length rm.hosts in
      let first = link-host a b rm os p new h in
      let second = rw same at (link-host c d rm' os' (rw same p) new' h') in
      let met =
        p.distinct (rm.host_seq % n) (rm'.host_seq % n) l.host first (rw e second)
          (mod-lt _ p.some_host) (mod-lt _ p.some_host) in
      mod_shift rm.host_seq (rm'.host_seq - rm.host_seq) n (omega arith) (omega arith) (
        ap (λ s. s % n)
          (let shift : rm.host_seq + (rm'.host_seq - rm.host_seq) ≡ rm'.host_seq = omega arith in
            shift)
        ∙ sym met)

  -- Any number of calls of link leaves the pool, and moves the cursor by at most one for each.
  abbrev pub all_wanted : List (ℕ × ℕ) → List Call
  all_wanted [] = []
  all_wanted ((a, b) ∷ pairs) = wanted a b ∷ all_wanted pairs

  Within : RelayManager → ℕ → RelayManager → Type 0
  Within rm n rm' =
      (rm'.hosts ≡ rm.hosts) × (rm.host_seq ≤ rm'.host_seq) × (rm'.host_seq ≤ rm.host_seq + n)

  link-Within :
      (a b : ℕ) (rm : RelayManager) (os : Os)
      → 0 < length rm.hosts
      → Within rm 1 (link net a b rm os).1
  unfolding Within
  link-Within a b rm os p = elim (Option-cases (lookup (pair_key a b) rm.links)) [
    | inl new ↦
        let (moved, same) = link-host_seq a b rm os p new in (same, omega arith, omega arith)
    | inr (l, old) ↦ rw (link_found net a b rm os old) (refl, omega arith, omega arith)
  ]

  calls-Within :
      (pairs : List (ℕ × ℕ)) (rm : RelayManager) (os : Os)
      → 0 < length rm.hosts
      → Within rm (length pairs) (calls net (all_wanted pairs) rm os).0
  unfolding calls Within
  calls-Within [] rm os p = (refl, omega arith, omega arith)
  calls-Within ((a, b) ∷ pairs) rm os p =
      let (same, low, high) = link-Within a b rm os p in
      let (same', low', high') =
        calls-Within pairs (link net a b rm os).1 (link net a b rm os).2 (rw same p) in
      (same' ∙ same, omega arith, omega arith)

  -- The manager and the system after a call for two consoles, and those for other pairs.
  abbrev pub after : ℕ → ℕ → List (ℕ × ℕ) → RelayManager → Os → RelayManager × Os
  after a b pairs rm os = calls net (wanted a b ∷ all_wanted pairs) rm os

  -- With a pool of different addresses, none empty: after a new link is opened, and fewer calls of
  -- link than there are addresses, less one, have followed, whether or not they open one, the next
  -- new link that is opened presents another address.
  pub hosts_differ :
      (a b c d : ℕ) (pairs : List (ℕ × ℕ)) (rm : RelayManager) (os : Os) {l l' : RelayLink}
      → IsPool rm.hosts
      → length pairs + 1 < length rm.hosts
      → lookup (pair_key a b) rm.links ≡ none
      → (link net a b rm os).0 ≡ some l
      → lookup (pair_key c d) (after a b pairs rm os).0.links ≡ none
      → (link net c d (after a b pairs rm os).0 (after a b pairs rm os).1).0 ≡ some l'
      → l.host ≢ l'.host
  unfolding Within calls
  hosts_differ a b c d pairs rm os {l} {l'} p few new h new' h' =
      let (moved, same) = link-host_seq a b rm os p.some_host new in
      let (same', low, high) =
        calls-Within pairs (link net a b rm os).1 (link net a b rm os).2 (rw same p.some_host) in
      apart_differ a b c d rm (after a b pairs rm os).0 os (after a b pairs rm os).1 p
        (same' ∙ same) (omega arith) (omega arith) new new' h h'

  -- Exactly a pool's size apart, two new links present the same address.
  pub hosts_meet :
      (a b c d : ℕ) (rm rm' : RelayManager) (os os' : Os) {l l' : RelayLink}
      → IsPool rm.hosts
      → rm'.hosts ≡ rm.hosts
      → rm'.host_seq ≡ rm.host_seq + length rm.hosts
      → lookup (pair_key a b) rm.links ≡ none
      → lookup (pair_key c d) rm'.links ≡ none
      → (link net a b rm os).0 ≡ some l
      → (link net c d rm' os').0 ≡ some l'
      → l.host ≡ l'.host
  hosts_meet a b c d rm rm' os os' {l} {l'} p same step new new' h h' =
      let first = link-host a b rm os p new h in
      let second = rw same at (link-host c d rm' os' (rw same p) new' h') in
      let round =
        ap (λ s. s % length rm.hosts) step ∙ mod_round rm.host_seq (length rm.hosts) p.some_host in
      let both : some l.host ≡ some l'.host =
        sym first ∙ ap (get_elem? rm.hosts) (sym round) ∙ second in
      cc
