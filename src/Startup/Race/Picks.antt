-- ===== src/Startup/Race/Picks.antt =====
-- What a turn of a secure server of server/main.go keeps, with the relay and without.
use mathlib.Core.Path.{subst}
use mathlib.Core.Bool.{false≢true}
use fbf_3ds_servers.Base.{
  ℕ, ◌⊎◌, str_eq, ◌≡◌, refl, sym, inl, inr, Bool, true, false, none, some, nat_eq, Env, Bool-cases,
  Option-cases, arith,
}
use fbf_3ds_servers.Startup.Race.{
  Position, at_test, at_new, at_read, in_set_hosts, at_log, listening, relays, Shared, assign_new,
  give_pool, access, stand, pick, at_start,
}
use fbf_3ds_servers.Startup.Race.Invariant.{Pending, bare, Inv, replace-all, stand-Inv}
use fbf_3ds_servers.Startup.Race.Accesses.{
  assign-Inv, give-Inv, idle, logging, bare_target, read_pointer, read_log, read_test,
}

module _ (getenv : Env) where
  -- No access meets a nil pointer, and each keeps the invariant.
  access-Inv :
      (database : Bool) (i : ℕ) (s : Shared) (point : Position)
      → relays getenv database ≡ true
      → Inv getenv s
      → s.servers i ≡ point
      → (out : Position × Shared) × (access getenv database point s ≡ some out)
        × Inv getenv (stand getenv i out)
  unfolding access
  access-Inv database i s at_test on h at = elim (Option-cases s.relay) [
    | inl nil ↦ (
      (at_new, s),
      read_test getenv database s on nil,
      stand-Inv getenv i at_new s (λ e. absurd (false≢true e)) (λ p e. absurd (ground arith))
          (λ p e. absurd (ground arith)) h,
    )
    | inr (q, e) ↦ (
      (at_read, s),
      read_test getenv database s on e,
      stand-Inv getenv i at_read s (λ _. (q, e)) (λ p e'. absurd (ground arith))
          (λ p _. inr (inl (inl refl))) h,
    )
  ]
  access-Inv database i s at_new on h at =
      ((at_read, assign_new getenv s), refl, assign-Inv getenv i s h at)
  access-Inv database i s at_read on h at = elim (Bool-cases (bare getenv)) [
    | inl no_pool ↦ (
      (at_log, s),
      rw no_pool refl,
      stand-Inv getenv i at_log s (λ _. h.made_one i (rw at refl)) (λ p e. absurd (ground arith))
          (λ p e. inl (bare_target getenv s p no_pool h e)) h,
    )
    | inr pool ↦
        let (q, e) = h.made_one i (rw at refl) in
        (
          (in_set_hosts q, s),
          read_pointer getenv database s q pool e,
          stand-Inv getenv i (in_set_hosts q) s (λ _. (q, e)) (λ p e'. pool)
              (λ p e'. inr (inl (inr cc))) h,
        )
  ]
  access-Inv database i s (in_set_hosts p) on h at =
      ((at_log, give_pool getenv p s), refl, give-Inv getenv i p s h at)
  access-Inv database i s at_log on h at =
      let (q, e) = h.made_one i (rw at refl) in
      (
        (listening, s),
        read_log getenv database s q e,
        stand-Inv getenv i listening s (λ _. (q, e)) (λ p e'. absurd (ground arith))
            (λ p e'. inr (inr (subst (λ x. ¬ (Pending p x)) (sym at) (logging getenv p)))) h,
      )
  access-Inv database i s listening on h at = (
    (listening, s),
    refl,
    stand-Inv getenv i listening s (λ _. h.made_one i (rw at refl)) (λ p e. absurd (ground arith))
        (λ p e. inr (inr (subst (λ q. ¬ (Pending p q)) (sym at) (idle getenv p)))) h,
  )

  pub start-Inv : Inv getenv at_start
  start-Inv = record {
    made_one = λ i e. absurd (false≢true e);
    with_pool = λ i p e. absurd (ground arith);
    known = λ p e. absurd (ground arith);
    either = λ p below. absurd (omega arith);
    ready = λ p e. absurd (ground arith);
  }

  pub pick-Inv :
      (database : Bool) (i : ℕ) (s : Shared)
      → relays getenv database ≡ true
      → Inv getenv s
      → (s' : Shared) × (pick getenv database i s ≡ some s') × Inv getenv s'
  unfolding pick
  pick-Inv database i s on h =
      let (out, e, h') = access-Inv database i s (s.servers i) on h refl in
      (stand getenv i out, rw (pick, e) refl, h')

  -- Without the relay, nothing is made.
  abbrev pub IsBefore : Position → Type 0
  IsBefore point = (point ≡ at_test) ⊎ (point ≡ listening)

  pub record IsOff (s : Shared) : Type 0 where
    pub no_relay : s.relay ≡ none
    pub before : (i : ℕ) → IsBefore (s.servers i)

  pub pick-IsOff :
      (database : Bool) (i : ℕ) (s : Shared)
      → relays getenv database ≡ false
      → IsOff s
      → (s' : Shared) × (pick getenv database i s ≡ some s') × IsOff s'
  unfolding pick access
  pick-IsOff database i s off h = (
    stand getenv i (listening, s),
    elim (h.before i) [
      | inl at ↦ rw (pick, at, access, off) refl
      | inr at ↦ rw (pick, at, access) refl
    ],
    record {
      no_relay = h.no_relay;
      before =
          replace-all getenv (λ _ q. IsBefore q) s.servers i listening (inr refl)
            (λ j _. h.before j);
    },
  )
