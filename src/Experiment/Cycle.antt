-- ===== src/Experiment/Cycle.antt =====
-- The cycle tries every combination, also where the counter wraps.
use mathlib.Core.Path.{subst}
use mathlib.Core.List.{Mem, mem-cons_self, mem-cons_of_mem}
use fbf_3ds_servers.Base.{
  ℕ, zero, suc, ◌+◌, ◌-◌, ◌%◌, ◌≤◌, ◌<◌, ◌≡◌, refl, sym, ap, ◌∙◌, inl, inr, true, Bool-cases, ltb,
  some, List, [], ◌∷◌, length, get_elem?, Env, arith,
}
use fbf_3ds_servers.Experiment.{
  Combo, ffe_combos, Experiment, cycles, ffe_next_combo, or_first, ffe_combo,
}

abbrev pub combo_at : ℕ → Combo
combo_at i = or_first (get_elem? ffe_combos i)

get_elem?-lt {ℓ} :
    {A : Type ℓ} (xs : List A) (i : ℕ) {x : A} → get_elem? xs i ≡ some x → i < length xs
get_elem?-lt [] i h = ground arith
get_elem?-lt (y ∷ ys) zero h = omega arith
get_elem?-lt (y ∷ ys) (suc i) h = omega (arith, get_elem?-lt ys i h)

-- Without a wrap, a remainder is met within nine steps.
near : (c i : ℕ) → c + 9 ≤ 4294967296 → i < 9 → (j : ℕ) × (j < 9) × ((c + j) % 4294967296 % 9 ≡ i)
near c i below small = ((i + 9 - c % 9) % 9, omega arith, omega arith)

-- With one, within the steps to 0 and nine more.
far : (c i : ℕ) → c < 4294967296 → i < 9 → (j : ℕ) × (j < 17) × ((c + j) % 4294967296 % 9 ≡ i)
far c i v small = elim (Bool-cases (ltb (c + 8) 4294967296)) [
  | inl below ↦ let (j, h, e) = near c i (ground arith) small in (j, omega arith, e)
  | inr above ↦ (4294967296 - c + i, ground arith, ground arith)
]

module _ (getenv : Env) where
  -- The combinations of the next CONNECTs.
  unfoldable pub used : ℕ → Experiment → List Combo
  used zero e = []
  used (suc k) e = ffe_combo getenv (ffe_next_combo getenv e) ∷ used k (ffe_next_combo getenv e)

  module _ (on : cycles getenv ≡ true) where
    next_counter :
        (e : Experiment) → (ffe_next_combo getenv e).counter ≡ (e.counter + 1) % 4294967296
    unfolding ffe_next_combo
    next_counter e = rw on refl

    pub next_combo :
        (e : Experiment) → ffe_combo getenv (ffe_next_combo getenv e) ≡ combo_at (e.counter % 9)
    unfolding ffe_next_combo ffe_combo
    next_combo e = rw on refl

    used_at :
        (j k : ℕ) (e : Experiment)
        → j < k
        → e.counter < 4294967296
        → Mem (combo_at ((e.counter + j) % 4294967296 % 9)) (used k e)
    unfolding used
    used_at j zero e h v = absurd (omega arith)
    used_at zero (suc k) e h v =
        let same : (e.counter + 0) % 4294967296 ≡ e.counter = omega arith in
        subst (λ c. Mem c (used (suc k) e)) (next_combo e ∙ ap (λ n. combo_at (n % 9)) (sym same))
          mem-cons_self
    used_at (suc j) (suc k) e h v =
        let step = next_counter e in
        let same : ((ffe_next_combo getenv e).counter + j) % 4294967296
            ≡ (e.counter + suc j) % 4294967296 =
          omega (arith, step) in
        subst (λ n. Mem (combo_at (n % 9)) (used (suc k) e)) same
          (mem-cons_of_mem _
            (used_at j k (ffe_next_combo getenv e) (omega arith) (omega (arith, step))))

    -- With FFE_CYCLE=1, each of the nine combinations is that of one of the next 17 CONNECTs, wherever
    -- the counter of 32 bits stands, and that of one of the next 9 where it does not wrap before.
    pub cycle_covers :
        (e : Experiment) (i : ℕ) {c : Combo}
        → e.counter < 4294967296
        → get_elem? ffe_combos i ≡ some c
        → Mem c (used 17 e) × (e.counter + 9 ≤ 4294967296 → Mem c (used 9 e))
    cycle_covers e i {c} v found =
        let small = get_elem?-lt ffe_combos i found in
        let same : combo_at i ≡ c = rw found refl in
        let (j, h, met) = far e.counter i v small in
        (
          subst (λ x. Mem x (used 17 e)) (ap combo_at met ∙ same) (used_at j 17 e h v),
          λ below.
              let (k, g, met') = near e.counter i below small in
              subst (λ x. Mem x (used 9 e)) (ap combo_at met' ∙ same) (used_at k 9 e g v),
        )
