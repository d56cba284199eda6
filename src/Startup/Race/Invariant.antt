-- ===== src/Startup/Race/Invariant.antt =====
-- What holds of the managers of server/main.go while the secure servers start.
use mathlib.Core.Path.{subst}
use mathlib.Core.Bool.{false≢true}
use fbf_3ds_servers.Base.{
  ℕ, ◌<◌, ◌≡◌, ◌≢◌, refl, sym, ◌∙◌, ◌⊎◌, inl, inr, Bool, true, false, some, [], List, Str, txt,
  str_beq, nat_beq, nat_beq_iff, nat_eq, beq_ne, split, Env, env, if◌then◌else◌, Bool-cases,
}
use fbf_3ds_servers.Relay.{RelayManager, new_relay_manager, set_hosts}
use fbf_3ds_servers.Startup.{pool_of}
use fbf_3ds_servers.Startup.Race.{
  Position, at_test, at_new, at_read, in_set_hosts, Shared, replace, stand,
}

-- Behind the test and what belongs to it: a manager was there.
abbrev pub past : Position → Bool
past at_test = false
past at_new = false
past _ = true

-- Still to give this manager the pool, as far as one can tell.
abbrev pub Pending : ℕ → Position → Type 0
Pending p point = (point ≡ at_read) ⊎ (point ≡ in_set_hosts p)

-- What setHosts and newRelayManager decide of a manager.
abbrev pub shape : RelayManager → Str × List Str
shape rm = (rm.public_host, rm.hosts)

module _ (getenv : Env) where
  abbrev pub fresh : RelayManager
  fresh = new_relay_manager (env getenv (txt "FFE_PUBLIC_HOST") (txt "10.0.0.95"))

  abbrev pub pooled : RelayManager → RelayManager
  pooled rm = set_hosts (pool_of (split b',' (getenv (txt "FFE_RELAY_IPS")))) rm

  abbrev pub bare : Bool
  bare = str_beq (getenv (txt "FFE_RELAY_IPS")) []

  abbrev pub target : RelayManager
  target = if bare then fresh else pooled fresh

  pub record Inv (s : Shared) : Type 0 where
    pub made_one : (i : ℕ) → past (s.servers i) ≡ true → (p : ℕ) × (s.relay ≡ some p)
    pub with_pool : (i p : ℕ) → s.servers i ≡ in_set_hosts p → bare ≡ false
    pub known : (p : ℕ) → s.relay ≡ some p → p < s.made
    pub either :
        (p : ℕ)
        → p < s.made
        → (shape (s.managers p) ≡ shape fresh) ⊎ (shape (s.managers p) ≡ shape target)
    pub ready :
        (p : ℕ)
        → s.relay ≡ some p
        → (shape (s.managers p) ≡ shape target) ⊎ ((i : ℕ) × Pending p (s.servers i))

  pub replace-own {ℓ} : {A : Type ℓ} (f : ℕ → A) (i : ℕ) (a : A) → replace f i a i ≡ a
  replace-own f i a = let same = (nat_beq_iff i i).1 refl in rw same refl

  replace-other {ℓ} :
      {A : Type ℓ} (f : ℕ → A) (i : ℕ) (a : A) (j : ℕ) → i ≢ j → replace f i a j ≡ f j
  replace-other f i a j other = let apart = beq_ne i j other in rw apart refl

  -- A property of all values, where it holds of the one put in.
  pub replace-all {ℓ κ} :
      {A : Type ℓ} (P : ℕ → A → Type κ) (f : ℕ → A) (i : ℕ) (a : A)
      → P i a
      → ((j : ℕ) → i ≢ j → P j (f j))
      → (j : ℕ) → P j (replace f i a j)
  replace-all P f i a own others j = elim (Bool-cases (nat_beq i j)) [
    | inl same ↦ rw same (subst (λ n. P n a) ((nat_beq_iff i j).0 same) own)
    | inr other ↦ rw other (others j (λ e. absurd (false≢true (sym other ∙ (nat_beq_iff i j).1 e))))
  ]

  -- After a move of one server, a manager has its pool or some server is still to give it.
  abbrev pub Resolved : Shared → ℕ → Position → ℕ → Type 0
  Resolved s i point p =
      (shape (s.managers p) ≡ shape target) ⊎ (Pending p point ⊎ ¬ (Pending p (s.servers i)))

  stand-ready :
      (i p : ℕ) (point : Position) (s : Shared)
      → Resolved s i point p
      → (shape (s.managers p) ≡ shape target) ⊎ ((j : ℕ) × Pending p (s.servers j))
      → (shape (s.managers p) ≡ shape target) ⊎ ((j : ℕ) × Pending p (replace s.servers i point j))
  stand-ready i p point s (inl done) _ = inl done
  stand-ready i p point s _ (inl done) = inl done
  stand-ready i p point s (inr (inl own)) _ =
      inr (i, subst (Pending p) (sym (replace-own s.servers i point)) own)
  stand-ready i p point s (inr (inr free)) (inr (j, other)) = inr (
    j,
    subst (Pending p)
        (sym (
          replace-other s.servers i point j
            (λ e. free (subst (λ n. Pending p (s.servers n)) (sym e) other))))
        other,
  )

  pub stand-Inv :
      (i : ℕ) (point : Position) (s : Shared)
      → (past point ≡ true → (p : ℕ) × (s.relay ≡ some p))
      → ((p : ℕ) → point ≡ in_set_hosts p → bare ≡ false)
      → ((p : ℕ) → s.relay ≡ some p → Resolved s i point p)
      → Inv s
      → Inv (stand getenv i (point, s))
  stand-Inv i point s one pool resolved h = record {
    made_one =
        replace-all (λ _ q. past q ≡ true → (p : ℕ) × (s.relay ≡ some p)) s.servers i point one
          (λ j _. h.made_one j);
    with_pool =
        replace-all (λ _ q. (p : ℕ) → q ≡ in_set_hosts p → bare ≡ false) s.servers i point pool
          (λ j _. h.with_pool j);
    known = h.known;
    either = h.either;
    ready = λ p e. stand-ready i p point s (resolved p e) (h.ready p e);
  }
