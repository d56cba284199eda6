-- ===== src/Geo/Points.antt =====
-- onlineLocations: what the dashboard's map shows, and what it asks for.
use mathlib.Core.Path.{subst}
use mathlib.Core.Bool.{false≢true}
use mathlib.Core.List.{Mem, mem-cons_self, mem-cons_of_mem}
use fbf_3ds_servers.Base.{
  or_false, ◌≡◌, refl, sym, ap, ◌∙◌, ◌⊎◌, inl, inr, Bool, true, false, Option, none, some, List, [],
  ◌∷◌, Str, str_beq, str_beq_iff, str_eq, lookup, lookup-insert, Bool-cases, Option-cases, All,
  arith,
}
use fbf_3ds_servers.Geo.{
  Connection, Ips, all_ips, Places, geo_locate, World, ask, points_of, online_locations, Reachable,
  asked,
}
use fbf_3ds_servers.Geo.Hosts.{is_online, lookup-all_ips, All-all_ips}

module _ (places : Places) where
  open places use {Point, is_place}

  cache-ask : (ip : Str) (w : World places) → (ask places ip w).geo.cache ≡ w.geo.cache
  unfolding ask geo_locate
  cache-ask ip w = ground arith

  -- The address has a result, or a lookup of it runs.
  abbrev pub is_asked : Str → World places → Bool
  is_asked ip w = elim (lookup ip w.geo.cache) [
    | none ↦ or_false (lookup ip w.geo.inflight)
    | some _ ↦ true
  ]

  is_asked-ask : (ip : Str) (w : World places) → is_asked ip (ask places ip w) ≡ true
  unfolding ask geo_locate
  is_asked-ask ip w = ground (arith, lookup-insert ip ip true w.geo.inflight, str_beq_iff ip ip)

  is_asked_before :
      (ip j : Str) (w : World places) → is_asked ip w ≡ true → is_asked ip (ask places j w) ≡ true
  unfolding ask geo_locate
  is_asked_before ip j w h = ground (arith, lookup-insert j ip true w.geo.inflight)

  -- A point of the map is the kept place of an address.
  abbrev pub IsKept : (P : Str → Type 0) → World places → Point → Type 0
  IsKept P w p = (ip : Str) × P ip × (lookup ip w.geo.cache ≡ some p) × (is_place p ≡ true)

  -- The first address gives a point exactly if its place is kept.
  points_of_cons :
      (j : Str) (b : Bool) (ips : Ips) (w : World places)
      → ((p : Point) × (lookup j w.geo.cache ≡ some p)
          × (is_place p ≡ true)
          × ((points_of places ((j, b) ∷ ips) w).0 ≡ p ∷ (points_of places ips (ask places j w)).0))
        ⊎ (((p : Point) → lookup j w.geo.cache ≡ some p → is_place p ≡ false)
            × ((points_of places ((j, b) ∷ ips) w).0 ≡ (points_of places ips (ask places j w)).0))
  unfolding points_of geo_locate
  points_of_cons j b ips w = elim (Option-cases (lookup j w.geo.cache)) [
    | inl e ↦ inr (λ p e'. ground arith, ground arith)
    | inr (p, e) ↦ elim (Bool-cases (is_place p)) [
      | inl real ↦ inl (p, e, real, ground arith)
      | inr zero_place ↦ inr (λ q e'. ground arith, ground arith)
    ]
  ]

  All-points_of :
      (P : Str → Type 0) (ips : Ips) (w v : World places)
      → w.geo.cache ≡ v.geo.cache
      → All (λ e. P e.0) ips
      → All (IsKept P v) (points_of places ips w).0
  unfolding points_of
  All-points_of P [] w v same h = tt
  All-points_of P ((ip, b) ∷ ips) w v same h =
      let rest = All-points_of P ips (ask places ip w) v (cache-ask ip w ∙ same) h.1 in
      elim (points_of_cons ip b ips w) [
        | inl (p, e, k, shown) ↦ rw shown ((ip, h.0, ap (λ m. lookup ip m) (sym same) ∙ e, k), rest)
        | inr (_, shown) ↦ rw shown rest
      ]

  Reachable-points_of :
      (ips : Ips) {w : World places}
      → Reachable places w
      → Reachable places (points_of places ips w).1
  unfolding points_of
  Reachable-points_of [] r = r
  Reachable-points_of ((ip, _) ∷ ips) r = Reachable-points_of ips (asked ip r)

  is_asked-points_of :
      (ip : Str) (ips : Ips) (w : World places)
      → (is_asked ip w ≡ true) ⊎ (or_false (lookup ip ips) ≡ true)
      → is_asked ip (points_of places ips w).1 ≡ true
  unfolding points_of lookup
  is_asked-points_of ip [] w h = ground arith
  is_asked-points_of ip ((j, b) ∷ ips) w h =
      let rest = is_asked-points_of ip ips (ask places j w) in
      ground (arith, is_asked-ask ip w, is_asked_before ip j w, str_beq_iff j ip)

  points_of_known :
      (ip : Str) (p : Point) (ips : Ips) (w : World places)
      → or_false (lookup ip ips) ≡ true
      → lookup ip w.geo.cache ≡ some p
      → is_place p ≡ true
      → Mem p (points_of places ips w).0
  unfolding points_of lookup
  points_of_known ip p [] w h e k = ground arith
  points_of_known ip p ((j, b) ∷ ips) w h e k = elim (Bool-cases (str_beq j ip)) [
    | inl same ↦ elim (points_of_cons j b ips w) [
      | inl (q, e', k', shown) ↦
          let c = (str_beq_iff j ip).0 same in
          let d : q ≡ p = ground arith in rw (shown, d) mem-cons_self
      | inr (never, _) ↦ absurd (
          false≢true (
            sym (
              never p
                (subst (λ i. lookup i w.geo.cache ≡ some p) (sym ((str_beq_iff j ip).0 same)) e))
            ∙ k))
    ]
    | inr other ↦
        let rest =
          points_of_known ip p ips (ask places j w) (ground arith)
            (ap (λ m. lookup ip m) (cache-ask j w) ∙ e) k in
        elim (points_of_cons j b ips w) [
          | inl (q, _, _, shown) ↦ rw shown (mem-cons_of_mem q rest)
          | inr (_, shown) ↦ rw shown rest
        ]
  ]

  -- In a world that calls of geoLocate and ends of lookups lead to, onlineLocations leads to
  -- another one. Its points are kept places of the hosts of connected consoles, and no others: each
  -- is in the cache, is no zero point, and is some online host's. Each online host with such a place
  -- in the cache is on the map, and afterwards each online host has a result or is being looked up.
  pub online_locations_lem :
      (eps : List (Option (List Connection))) {w : World places}
      → Reachable places w
      → Reachable places (online_locations places eps w).1
        × All (IsKept (λ ip. is_online ip eps ≡ true) w) (online_locations places eps w).0
        × ((ip : Str) (p : Point)
            → is_online ip eps ≡ true
            → lookup ip w.geo.cache ≡ some p
            → is_place p ≡ true
            → Mem p (online_locations places eps w).0)
        × ((ip : Str)
            → is_online ip eps ≡ true
            → is_asked ip (online_locations places eps w).1 ≡ true)
  unfolding online_locations lookup
  online_locations_lem eps {w} r =
      let stands : (ip : Str)
          → is_online ip eps ≡ true
          → or_false (lookup ip (all_ips eps [])) ≡ true =
        λ ip on. rw (lookup-all_ips ip eps []) (ground arith) in
      (
        Reachable-points_of (all_ips eps []) r,
        All-points_of (λ ip. is_online ip eps ≡ true) (all_ips eps []) w w refl
            (All-all_ips (λ ip. is_online ip eps ≡ true) eps [] (λ ip on. on) tt),
        λ ip p on e k. points_of_known ip p (all_ips eps []) w (stands ip on) e k,
        λ ip on. is_asked-points_of ip (all_ips eps []) w (inr (stands ip on)),
      )
