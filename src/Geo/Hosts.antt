-- ===== src/Geo/Hosts.antt =====
-- The hosts that onlineLocations collects: those of the connected consoles.

use fbf_3ds_servers.Base.{
  or_false, ◌≡◌, refl, inl, inr, Bool, true, false, ◌||◌, ◌&&◌, Option, none, some, List, [], ◌∷◌,
  Str, ltb, str_beq, str_beq_iff, str_eq, lookup, insert, lookup-insert, Bool-cases, Option-cases,
  All, arith,
}
use fbf_3ds_servers.Geo.{Connection, Ips, add_host, add_hosts, all_ips}

-- A console with a host at that address: the two server accounts do not count.
abbrev pub is_at : Str → Connection → Bool
is_at ip c = elim c.host [ none ↦ false | some host ↦ str_beq host ip && ltb 2 c.pid ]

abbrev pub any_at : Str → List Connection → Bool
any_at ip [] = false
any_at ip (c ∷ cs) = is_at ip c || any_at ip cs

abbrev pub is_online : Str → List (Option (List Connection)) → Bool
is_online ip [] = false
is_online ip (none ∷ eps) = is_online ip eps
is_online ip (some cs ∷ eps) = any_at ip cs || is_online ip eps

lookup-add_host :
    (ip : Str) (c : Connection) (ips : Ips)
    → or_false (lookup ip (add_host c ips)) ≡ (is_at ip c || or_false (lookup ip ips))
unfolding add_host
lookup-add_host ip c ips = elim (Option-cases c.host) [
  | inl e ↦ rw e refl
  | inr (host, e) ↦ rw e (ground (arith, lookup-insert host ip true ips))
]

lookup-add_hosts :
    (ip : Str) (cs : List Connection) (ips : Ips)
    → or_false (lookup ip (add_hosts cs ips)) ≡ (any_at ip cs || or_false (lookup ip ips))
unfolding add_hosts
lookup-add_hosts ip [] ips = refl
lookup-add_hosts ip (c ∷ cs) ips =
    ground (arith, lookup-add_hosts ip cs (add_host c ips), lookup-add_host ip c ips)

pub lookup-all_ips :
    (ip : Str) (eps : List (Option (List Connection))) (ips : Ips)
    → or_false (lookup ip (all_ips eps ips)) ≡ (is_online ip eps || or_false (lookup ip ips))
unfolding all_ips
lookup-all_ips ip [] ips = refl
lookup-all_ips ip (none ∷ eps) ips = lookup-all_ips ip eps ips
lookup-all_ips ip (some cs ∷ eps) ips =
    ground (arith, lookup-all_ips ip eps (add_hosts cs ips), lookup-add_hosts ip cs ips)

-- Every address of the set was put there with true.
All-insert {ℓ} :
    (P : Str → Type ℓ) (k : Str) (v : Bool) (ips : Ips)
    → P k
    → All (λ e. P e.0) ips
    → All (λ e. P e.0) (insert k v ips)
unfolding insert
All-insert P k v [] p h = (p, tt)
All-insert P k v ((j, w) ∷ ips) p h = elim (Bool-cases (str_beq j k)) [
  | inl same ↦ rw same (p, h.1)
  | inr other ↦ rw other (h.0, All-insert P k v ips p h.1)
]

module _ {ℓ} (P : Str → Type ℓ) where
  All-add_host :
      (c : Connection) (ips : Ips)
      → ((ip : Str) → is_at ip c ≡ true → P ip)
      → All (λ e. P e.0) ips
      → All (λ e. P e.0) (add_host c ips)
  unfolding add_host
  All-add_host c ips f h = elim (Option-cases c.host) [
    | inl e ↦ rw e h
    | inr (host, e) ↦ elim (Bool-cases (ltb 2 c.pid)) [
      | inl real ↦
          rw (e, real)
            (All-insert P host true ips
              (f host (rw (e, real) (ground (arith, str_beq_iff host host)))) h)
      | inr server ↦ rw (e, server) h
    ]
  ]

  All-add_hosts :
      (cs : List Connection) (ips : Ips)
      → ((ip : Str) → any_at ip cs ≡ true → P ip)
      → All (λ e. P e.0) ips
      → All (λ e. P e.0) (add_hosts cs ips)
  unfolding add_hosts
  All-add_hosts [] ips f h = h
  All-add_hosts (c ∷ cs) ips f h =
      All-add_hosts cs (add_host c ips) (λ ip e. f ip (ground arith))
        (All-add_host c ips (λ ip e. f ip (ground arith)) h)

  pub All-all_ips :
      (eps : List (Option (List Connection))) (ips : Ips)
      → ((ip : Str) → is_online ip eps ≡ true → P ip)
      → All (λ e. P e.0) ips
      → All (λ e. P e.0) (all_ips eps ips)
  unfolding all_ips
  All-all_ips [] ips f h = h
  All-all_ips (none ∷ eps) ips f h = All-all_ips eps ips f h
  All-all_ips (some cs ∷ eps) ips f h =
      All-all_ips eps (add_hosts cs ips) (λ ip e. f ip (ground arith))
        (All-add_hosts cs ips (λ ip e. f ip (ground arith)) h)
