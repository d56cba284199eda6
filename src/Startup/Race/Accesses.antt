-- ===== src/Startup/Race/Accesses.antt =====
-- The accesses of server/main.go that make a manager and give it its pool.
use mathlib.Core.Path.{subst}
use mathlib.Core.Bool.{false≢true}
use fbf_3ds_servers.Base.{
  ℕ, Bool, ◌+◌, ◌<◌, ◌≡◌, ◌≢◌, refl, sym, ap, ◌∙◌, ◌⊎◌, inl, inr, true, false, Option, none, some,
  txt, nat_beq, nat_beq_iff, nat_eq, split, Env, Bool-cases, arith,
}
use fbf_3ds_servers.Relay.{RelayManager, set_hosts}
use fbf_3ds_servers.Startup.{pool_of}
use fbf_3ds_servers.Startup.Race.{
  Position, at_test, relays, at_new, at_read, in_set_hosts, listening, at_log, Shared, assign_new,
  give_pool, access, stand,
}
use fbf_3ds_servers.Startup.Race.Invariant.{
  Pending, shape, fresh, pooled, bare, target, Inv, stand-Inv, replace-own, replace-all,
}

module _ (getenv : Env) where
  fresh_pool : (bare getenv) ≡ true → shape (fresh getenv) ≡ shape (target getenv)
  fresh_pool e = rw e refl

  shape-pooled :
      (rm : RelayManager)
      → (bare getenv) ≡ false
      → rm.public_host ≡ (fresh getenv).public_host
      → shape (pooled getenv rm) ≡ shape (target getenv)
  unfolding set_hosts
  shape-pooled rm e host =
      rw e (ap (λ h. (h, pool_of (split b',' (getenv (txt "FFE_RELAY_IPS"))))) host)

  pooled_either :
      (rm : RelayManager)
      → (bare getenv) ≡ false
      → (shape rm ≡ shape (fresh getenv)) ⊎ (shape rm ≡ shape (target getenv))
      → shape (pooled getenv rm) ≡ shape (target getenv)
  unfolding set_hosts
  pooled_either rm e (inl first) = shape-pooled rm e (ap (λ x. x.0) first)
  pooled_either rm e (inr second) = shape-pooled rm e (ap (λ x. x.0) second ∙ rw e refl)

  -- The access behind the test, with a new manager.
  pub assign-Inv :
      (i : ℕ) (s : Shared)
      → Inv getenv s
      → s.servers i ≡ at_new
      → Inv getenv (stand getenv i (at_read, assign_new getenv s))
  unfolding assign_new
  assign-Inv i s h at =
      let s' = assign_new getenv s in
      record {
        made_one = λ j _. (s.made, refl);
        with_pool =
            replace-all getenv (λ _ q. (p : ℕ) → q ≡ in_set_hosts p → (bare getenv) ≡ false)
              s.servers i at_read (λ p e. absurd (ground arith)) (λ j _. h.with_pool j);
        known = λ p e. let same : p ≡ s.made = cc in omega arith;
        either =
            replace-all getenv
              (λ p rm.
                p < s.made + 1
                → (shape rm ≡ shape (fresh getenv)) ⊎ (shape rm ≡ shape (target getenv)))
              s.managers s.made (fresh getenv) (λ _. inl refl)
              (λ p other below. h.either p (ground arith));
        ready = λ p e. inr (i, inl (replace-own getenv s.servers i at_read));
      }

  given :
      (i p : ℕ) (s : Shared)
      → Inv getenv s
      → s.servers i ≡ in_set_hosts p
      → s.relay ≡ some p
      → shape ((give_pool getenv p s).managers p) ≡ shape (target getenv)
  unfolding give_pool
  given i p s h at e =
      ap shape (replace-own getenv s.managers p (pooled getenv (s.managers p)))
      ∙ pooled_either (s.managers p) (h.with_pool i p at) (h.either p (h.known p e))

  give_pool-Inv :
      (i p : ℕ) (s : Shared)
      → Inv getenv s
      → s.servers i ≡ in_set_hosts p
      → Inv getenv (give_pool getenv p s)
  unfolding give_pool
  give_pool-Inv i p s h at = record {
    made_one = h.made_one;
    with_pool = h.with_pool;
    known = h.known;
    either =
        replace-all getenv
          (λ q rm.
            q < s.made → (shape rm ≡ shape (fresh getenv)) ⊎ (shape rm ≡ shape (target getenv)))
          s.managers p (pooled getenv (s.managers p))
          (λ below. inr (pooled_either (s.managers p) (h.with_pool i p at) (h.either p below)))
          (λ q _. h.either q);
    ready =
        replace-all getenv
          (λ q rm.
            s.relay ≡ some q
            → (shape rm ≡ shape (target getenv)) ⊎ ((j : ℕ) × Pending q (s.servers j)))
          s.managers p (pooled getenv (s.managers p))
          (λ e. inl (pooled_either (s.managers p) (h.with_pool i p at) (h.either p (h.known p e))))
          (λ q _. h.ready q);
  }

  other_pointer : (p q : ℕ) → p ≢ q → ¬ (Pending q (in_set_hosts p))
  other_pointer p q other (inl e) = ground arith
  other_pointer p q other (inr e) = other cc

  pub give-Inv :
      (i p : ℕ) (s : Shared)
      → Inv getenv s
      → s.servers i ≡ in_set_hosts p
      → Inv getenv (stand getenv i (at_log, give_pool getenv p s))
  unfolding give_pool
  give-Inv i p s h at =
      stand-Inv getenv i at_log (give_pool getenv p s) (λ _. h.made_one i (rw at refl))
        (λ q e. absurd (ground arith))
        (λ q e. elim (Bool-cases (nat_beq p q)) [
          | inl same ↦
              let one : p ≡ q = (nat_beq_iff p q).0 same in
              inl (
                subst (λ n. shape ((give_pool getenv p s).managers n) ≡ shape (target getenv)) one
                  (given i p s h at (e ∙ ap some (sym one))))
          | inr other ↦ inr (
              inr (
                subst (λ point. ¬ (Pending q point)) (sym at)
                  (other_pointer p q
                    (λ e'. absurd (false≢true (sym other ∙ (nat_beq_iff p q).1 e'))))))
        ])
        (give_pool-Inv i p s h at)

  pub idle : (p : ℕ) → ¬ (Pending p listening)
  idle p (inl e) = ground arith
  idle p (inr e) = ground arith

  pub logging : (p : ℕ) → ¬ (Pending p at_log)
  logging p (inl e) = ground arith
  logging p (inr e) = ground arith

  pub bare_target :
      (s : Shared) (p : ℕ)
      → (bare getenv) ≡ true
      → Inv getenv s
      → s.relay ≡ some p
      → shape (s.managers p) ≡ shape (target getenv)
  bare_target s p no_pool h e = elim (h.either p (h.known p e)) [
    | inl first ↦ first ∙ fresh_pool no_pool
    | inr second ↦ second
  ]

  pub read_pointer :
      (database : Bool) (s : Shared) (q : ℕ)
      → bare getenv ≡ false
      → s.relay ≡ some q
      → access getenv database at_read s ≡ some (in_set_hosts q, s)
  unfolding access
  read_pointer database s q pool e = rw pool (
      ap
        (λ (r : Option ℕ). elim r as (λ _. Option (Position × Shared)) [
          | none ↦ none
          | some p ↦ some (in_set_hosts p, s)
        ])
        e)

  pub read_log :
      (database : Bool) (s : Shared) (q : ℕ)
      → s.relay ≡ some q
      → access getenv database at_log s ≡ some (listening, s)
  unfolding access
  read_log database s q e =
      ap
        (λ (r : Option ℕ). elim r as (λ _. Option (Position × Shared)) [
          | none ↦ none
          | some p ↦ some (listening, s)
        ])
        e

  abbrev tested : Shared → Option ℕ → Option (Position × Shared)
  tested s none = some (at_new, s)
  tested s (some _) = some (at_read, s)

  pub read_test :
      (database : Bool) (s : Shared) {o : Option ℕ}
      → relays getenv database ≡ true
      → s.relay ≡ o
      → access getenv database at_test s ≡ tested s o
  unfolding access
  read_test database s on e = rw on (ap (tested s) e)
