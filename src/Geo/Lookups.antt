-- ===== src/Geo/Lookups.antt =====
-- Each address is looked up at most once, and is never both known and in flight.
use mathlib.Core.Path.{subst}
use fbf_3ds_servers.Base.{
  or_false, ◌-◌, ◌≡◌, ◌≢◌, refl, sym, ◌∙◌, ◌⊎◌, inl, inr, true, false, Option, none, some, List, [],
  ◌∷◌, Str, str_beq, str_beq_iff, str_eq, lookup, lookup-insert, lookup-delete, if◌then◌else◌,
  Bool-cases, arith,
}
use fbf_3ds_servers.Geo.{
  Reply, Places, geo_locate, fetched_point, fetch_geo, World, end_one, ask, finish, count,
  Reachable, begin, asked, finished,
}

module _ (places : Places) where
  open places use {Point}

  -- The address was never asked for.
  pub record IsNew (ip : Str) (w : World places) : Type 0 where
    pub not_cached : lookup ip w.geo.cache ≡ none
    pub not_inflight : or_false (lookup ip w.geo.inflight) ≡ false
    pub none_running : count places ip w.running ≡ 0
    pub none_started : count places ip w.started ≡ 0

  -- Its one lookup runs.
  pub record IsLoading (ip : Str) (w : World places) : Type 0 where
    pub not_cached : lookup ip w.geo.cache ≡ none
    pub inflight : or_false (lookup ip w.geo.inflight) ≡ true
    pub one_running : count places ip w.running ≡ 1
    pub one_started : count places ip w.started ≡ 1

  -- Its one lookup has ended, and its result is kept.
  pub record IsKnown (ip : Str) (w : World places) : Type 0 where
    pub point : Point
    pub cached : lookup ip w.geo.cache ≡ some point
    pub not_inflight : or_false (lookup ip w.geo.inflight) ≡ false
    pub none_running : count places ip w.running ≡ 0
    pub one_started : count places ip w.started ≡ 1

  abbrev pub Phase : Str → World places → Type 0
  Phase ip w = IsNew ip w ⊎ (IsLoading ip w ⊎ IsKnown ip w)

  -- What is kept of an address decides its phase.
  same-Phase :
      (ip : Str) (w w' : World places)
      → lookup ip w'.geo.cache ≡ lookup ip w.geo.cache
      → or_false (lookup ip w'.geo.inflight) ≡ or_false (lookup ip w.geo.inflight)
      → count places ip w'.running ≡ count places ip w.running
      → count places ip w'.started ≡ count places ip w.started
      → Phase ip w
      → Phase ip w'
  same-Phase ip w w' a b c d phase = elim phase [
    | inl h ↦ inl (record {
      not_cached = a ∙ h.not_cached;
      not_inflight = b ∙ h.not_inflight;
      none_running = c ∙ h.none_running;
      none_started = d ∙ h.none_started;
    })
    | inr (inl h) ↦ inr (
        inl (record {
          not_cached = a ∙ h.not_cached;
          inflight = b ∙ h.inflight;
          one_running = c ∙ h.one_running;
          one_started = d ∙ h.one_started;
        }))
    | inr (inr h) ↦ inr (
        inr (record {
          point = h.point;
          cached = a ∙ h.cached;
          not_inflight = b ∙ h.not_inflight;
          none_running = c ∙ h.none_running;
          one_started = d ∙ h.one_started;
        }))
  ]

  count-end_one :
      (ip j : Str) (ips : List Str)
      → count places j (end_one places ip ips)
        ≡ (if str_beq ip j then count places j ips - 1 else count places j ips)
  unfolding count end_one
  count-end_one ip j [] = ground arith
  count-end_one ip j (i ∷ ips) =
      ground (arith, count-end_one ip j ips, str_beq_iff i ip, str_beq_iff i j, str_beq_iff ip j)

  -- Asking for another address changes nothing of this one.
  ask_other :
      (ip j : Str) (w : World places)
      → str_beq j ip ≡ false
      → Phase ip w
      → Phase ip (ask places j w)
  unfolding ask geo_locate count
  ask_other ip j w other phase =
      same-Phase ip w (ask places j w) (ground arith)
        (ground (arith, lookup-insert j ip true w.geo.inflight)) (ground arith) (ground arith) phase

  finish_other :
      (ip j : Str) (reply : Option (Reply Point)) (w : World places)
      → str_beq j ip ≡ false
      → Phase ip w
      → Phase ip (finish places j reply w)
  unfolding finish fetch_geo
  finish_other ip j reply w other phase =
      same-Phase ip w (finish places j reply w)
        (ground (arith, lookup-insert j ip (fetched_point places j reply) w.geo.cache))
        (ground (arith, lookup-delete j ip w.geo.inflight))
        (ground (arith, count-end_one j ip w.running)) refl phase

  ask_same : (ip : Str) (w : World places) → Phase ip w → Phase ip (ask places ip w)
  unfolding ask geo_locate count
  ask_same ip w phase = elim phase [
    | inl h ↦ inr (
        inl (record {
          not_cached = ground arith;
          inflight = ground (arith, lookup-insert ip ip true w.geo.inflight, str_beq_iff ip ip);
          one_running = ground (arith, str_beq_iff ip ip);
          one_started = ground (arith, str_beq_iff ip ip);
        }))
    | inr (inl h) ↦
        let a = h.not_cached in
        let b = h.inflight in
        same-Phase ip w (ask places ip w) (ground arith) (ground arith) (ground arith)
          (ground arith) (inr (inl h))
    | inr (inr h) ↦
        let a = h.cached in
        same-Phase ip w (ask places ip w) (ground arith) (ground arith) (ground arith)
          (ground arith) (inr (inr h))
  ]

  finish_same :
      (ip : Str) (reply : Option (Reply Point)) (w : World places)
      → count places ip w.running ≢ 0
      → Phase ip w
      → Phase ip (finish places ip reply w)
  unfolding finish fetch_geo
  finish_same ip reply w runs phase = elim phase [
    | inl h ↦ absurd (runs h.none_running)
    | inr (inl h) ↦ inr (
        inr (record {
          point = fetched_point places ip reply;
          cached = ground (
            arith,
            lookup-insert ip ip (fetched_point places ip reply) w.geo.cache,
            str_beq_iff ip ip,
          );
          not_inflight = ground (arith, lookup-delete ip ip w.geo.inflight, str_beq_iff ip ip);
          none_running = ground (arith, count-end_one ip ip w.running, str_beq_iff ip ip);
          one_started = h.one_started;
        }))
    | inr (inr h) ↦ absurd (runs h.none_running)
  ]

  -- However calls and ends of lookups interleave, each address is new, loading or known: it is never
  -- both in the cache and in flight, at most one lookup of it runs, one runs exactly if it is in
  -- flight, and at most one was ever started.
  pub Reachable-Phase : {w : World places} → Reachable places w → (ip : Str) → Phase ip w
  unfolding lookup count
  Reachable-Phase begin ip =
      inl (record {
        not_cached = refl;
        not_inflight = refl;
        none_running = refl;
        none_started = refl;
      })
  Reachable-Phase (asked {w} j r) ip = elim (Bool-cases (str_beq j ip)) [
    | inl same ↦
        let e = (str_beq_iff j ip).0 same in
        subst (λ i. Phase ip (ask places i w)) (sym e) (ask_same ip w (Reachable-Phase r ip))
    | inr other ↦ ask_other ip j w other (Reachable-Phase r ip)
  ]
  Reachable-Phase (finished {w} j reply runs r) ip = elim (Bool-cases (str_beq j ip)) [
    | inl same ↦
        let e = (str_beq_iff j ip).0 same in
        subst (λ i. Phase ip (finish places i reply w)) (sym e)
          (finish_same ip reply w (subst (λ i. count places i w.running ≢ 0) e runs)
            (Reachable-Phase r ip))
    | inr other ↦ finish_other ip j reply w other (Reachable-Phase r ip)
  ]
