-- ===== src/Startup/Race/Settled.antt =====
-- What the variable `relay` of server/main.go is, once the secure servers have started.

use mathlib.Core.Bool.{false≢true}
use fbf_3ds_servers.Base.{
  ℕ, ◌<◌, ltb, ◌⊎◌, str_eq, ◌≡◌, refl, ap, inl, inr, Bool, true, false, Option, none, some, List,
  [], ◌∷◌, nat_eq, Env, Bool-cases, Option-cases, arith,
}
use fbf_3ds_servers.Relay.{RelayManager, Sockets, link}
use fbf_3ds_servers.Relay.Links.{link-setup}
use fbf_3ds_servers.Startup.{start_relay}
use fbf_3ds_servers.Startup.Race.{
  Position, at_test, at_new, at_read, in_set_hosts, at_log, listening, relays, Shared, at_start,
  Turn, server_turn, console_link, link_at, all_turns,
}
use fbf_3ds_servers.Startup.Race.Invariant.{
  past, Pending, shape, fresh, bare, target, Inv, replace-all,
}
use fbf_3ds_servers.Startup.Race.Picks.{start-Inv, pick-Inv, IsOff, pick-IsOff}

-- Behind the test, before the pool is set.
abbrev pub is_within : Position → Bool
is_within at_read = true
is_within (in_set_hosts _) = true
is_within _ = false

abbrev pub is_listening : Position → Bool
is_listening listening = true
is_listening _ = false

past_test : (q : Position) → is_listening q ≡ true → past q ≡ true
past_test at_test e = absurd (false≢true e)
past_test at_new e = absurd (false≢true e)
past_test at_read e = refl
past_test (in_set_hosts p) e = refl
past_test at_log e = refl
past_test listening e = refl

-- What consoles are served from.
abbrev pub current : Shared → Option RelayManager
current s = elim s.relay [ none ↦ none | some p ↦ some (s.managers p) ]

-- Consoles are served as from `o`: without a relay, or from a manager with the same public host and
-- the same pool.
pub data ServedLike (s : Shared) (o : Option RelayManager) : Type 0 where
  direct : current s ≡ none → o ≡ none → ServedLike s o
  relayed :
      (serving model : RelayManager)
      → current s ≡ some serving
      → o ≡ some model
      → serving.public_host ≡ model.public_host
      → serving.hosts ≡ model.hosts
      → ServedLike s o

module _ (getenv : Env) where
  nothing_here : (s : Shared) → s.relay ≡ none → current s ≡ none
  nothing_here s e =
      ap
        (λ (r : Option ℕ). elim r as (λ _. Option RelayManager) [
          | none ↦ none
          | some q ↦ some (s.managers q)
        ])
        e

  start_relay_target :
      (database : Bool)
      → relays getenv database ≡ true
      → start_relay getenv database none ≡ some (target getenv)
  unfolding start_relay
  start_relay_target database on = elim (Bool-cases (bare getenv)) [
    | inl no_pool ↦ rw (on, no_pool) refl
    | inr pool ↦ rw (on, pool) refl
  ]

  start_relay_off :
      (database : Bool) → relays getenv database ≡ false → start_relay getenv database none ≡ none
  unfolding start_relay
  start_relay_off database off = rw off refl

  current_here : (s : Shared) (p : ℕ) → s.relay ≡ some p → current s ≡ some (s.managers p)
  current_here s p here =
      ap
        (λ (r : Option ℕ). elim r as (λ _. Option RelayManager) [
          | none ↦ none
          | some q ↦ some (s.managers q)
        ])
        here

module _ (net : Sockets) (getenv : Env) where
  link_at-Inv :
      (p a b : ℕ) (s : Shared) (os : net.Os)
      → Inv getenv s
      → Inv getenv (link_at net getenv p a b s os).0
  unfolding link_at
  link_at-Inv p a b s os h = elim (Bool-cases (ltb p s.made)) [
    | inr nobody ↦ rw nobody h
    | inl there ↦
        let rm = (link net a b (s.managers p) os).1 in
        let same : shape rm ≡ shape (s.managers p) = link-setup net a b (s.managers p) os in
        rw there (record {
          made_one = h.made_one;
          with_pool = h.with_pool;
          known = h.known;
          either =
              replace-all getenv
                (λ q x.
                  q < s.made → (shape x ≡ shape (fresh getenv)) ⊎ (shape x ≡ shape (target getenv)))
                s.managers p rm (λ below. rw same (h.either p below)) (λ q _. h.either q);
          ready =
              replace-all getenv
                (λ q x.
                  s.relay ≡ some q
                  → (shape x ≡ shape (target getenv)) ⊎ ((j : ℕ) × Pending q (s.servers j)))
                s.managers p rm (λ e. rw same (h.ready p e)) (λ q _. h.ready q);
        })
  ]

  all_turns-Inv :
      (database : Bool) (ts : List Turn) (s : Shared) (os : net.Os)
      → relays getenv database ≡ true
      → Inv getenv s
      → (s' : Shared) × (os' : net.Os) × (all_turns net getenv database ts s os ≡ some (s', os'))
        × Inv getenv s'
  unfolding all_turns
  all_turns-Inv database [] s os on h = (s, os, refl, h)
  all_turns-Inv database (server_turn i ∷ ts) s os on h =
      let (s1, e, h1) = pick-Inv getenv database i s on h in
      let (s2, os2, e', h2) = all_turns-Inv database ts s1 os on h1 in
      (s2, os2, rw (all_turns, e) e', h2)
  all_turns-Inv database (console_link p a b ∷ ts) s os on h =
      all_turns-Inv database ts (link_at net getenv p a b s os).0 (link_at net getenv p a b s os).1
        on (link_at-Inv p a b s os h)

  link_at-IsOff :
      (p a b : ℕ) (s : Shared) (os : net.Os)
      → IsOff getenv s
      → IsOff getenv (link_at net getenv p a b s os).0
  unfolding link_at
  link_at-IsOff p a b s os h = elim (Bool-cases (ltb p s.made)) [
    | inr nobody ↦ rw nobody h
    | inl there ↦ rw there (record { no_relay = h.no_relay; before = h.before })
  ]

  all_turns-IsOff :
      (database : Bool) (ts : List Turn) (s : Shared) (os : net.Os)
      → relays getenv database ≡ false
      → IsOff getenv s
      → (s' : Shared) × (os' : net.Os) × (all_turns net getenv database ts s os ≡ some (s', os'))
        × IsOff getenv s'
  unfolding all_turns
  all_turns-IsOff database [] s os off h = (s, os, refl, h)
  all_turns-IsOff database (server_turn i ∷ ts) s os off h =
      let (s1, e, h1) = pick-IsOff getenv database i s off h in
      let (s2, os2, e', h2) = all_turns-IsOff database ts s1 os off h1 in
      (s2, os2, rw (all_turns, e) e', h2)
  all_turns-IsOff database (console_link p a b ∷ ts) s os off h =
      all_turns-IsOff database ts (link_at net getenv p a b s os).0
        (link_at net getenv p a b s os).1 off (link_at-IsOff p a b s os h)

  served :
      (database : Bool) (s : Shared)
      → relays getenv database ≡ true
      → Inv getenv s
      → ((i : ℕ) → is_listening (s.servers i) ≡ false)
        ⊎ (((j : ℕ) × (is_within (s.servers j) ≡ true))
            ⊎ ServedLike s (start_relay getenv database none))
  served database s on h = elim (Option-cases s.relay) [
    | inl nil ↦ inl (λ i. elim (Bool-cases (is_listening (s.servers i))) [
      | inl yet ↦
          let (p, here) = h.made_one i (past_test (s.servers i) yet) in absurd (ground arith)
      | inr not_yet ↦ not_yet
    ])
    | inr (p, here) ↦ inr (elim (h.ready p here) [
      | inl done ↦ inr (
          relayed (s.managers p) (target getenv) (current_here getenv s p here)
            (start_relay_target getenv database on) (ap (λ x. x.0) done) (ap (λ x. x.1) done))
      | inr (j, inl e) ↦ inl (j, ap is_within e)
      | inr (j, inr e) ↦ inl (j, ap is_within e)
    ])
  ]

  -- With a database or without, and whatever FFE_RELAY is: in whatever order the goroutines of the
  -- secure servers get to their accesses of `relay`, and whatever links consoles ask for in between,
  -- none meets a nil pointer. At each moment no server listens yet, or some server stands between its
  -- test of `relay` and the end of setHosts, or the consoles are served as where one server starts
  -- alone: without a relay if there is no database or FFE_RELAY is not 1, and else from a manager
  -- with the public host and the whole pool.
  pub all_turns-ServedLike :
      (database : Bool) (ts : List Turn) (os : net.Os)
      → (s : Shared) × (os' : net.Os) × (all_turns net getenv database ts at_start os
          ≡ some (s, os'))
        × (((i : ℕ) → is_listening (s.servers i) ≡ false)
            ⊎ (((j : ℕ) × (is_within (s.servers j) ≡ true))
                ⊎ ServedLike s (start_relay getenv database none)))
  all_turns-ServedLike database ts os = elim (Bool-cases (relays getenv database)) [
    | inl on ↦
        let (s, os', e, h) = all_turns-Inv database ts at_start os on (start-Inv getenv) in
        (s, os', e, served database s on h)
    | inr off ↦
        let (s, os', e, h) =
          all_turns-IsOff database ts at_start os off
            (record { no_relay = refl; before = λ i. inl refl }) in
        (
          s,
          os',
          e,
          inr (
              inr
                (direct (nothing_here getenv s h.no_relay) (start_relay_off getenv database off))),
        )
  ]
