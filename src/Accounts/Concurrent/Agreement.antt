-- ===== src/Accounts/Concurrent/Agreement.antt =====
-- Whether the store of server/register.go and the table agree on a PID, while registrations run.
use mathlib.Core.Bool.{false≢true}
use fbf_3ds_servers.Base.{
  ℕ, ◌≡◌, ◌≢◌, refl, sym, ap, ◌∙◌, inl, inr, Option, some, List, [], ◌∷◌, Str, str_eq, beq_refl,
  nat_beq, true, false, Bool-cases, arith,
}
use fbf_3ds_servers.Accounts.Store.{AccountTable, get}
use fbf_3ds_servers.Accounts.Register.{Request, Decoders, State}
use fbf_3ds_servers.Accounts.Restart.{IsTable, over}
use fbf_3ds_servers.Accounts.Concurrent.{
  Stage, saved, is_between, proceed, Serving, at_arrival, turn, turns,
}
use fbf_3ds_servers.Accounts.Concurrent.Alone.{turn-own}
use fbf_3ds_servers.Accounts.Concurrent.Turns.{
  in_table, Effect, quiet, opens, closes, Connected, proceed-Turns,
}

module _ (table : AccountTable) (laws : IsTable table) (decoders : Decoders) (k : Str) where
  abbrev pub IsAlone : Serving table decoders → Type 0
  IsAlone v =
      (i j : ℕ) → is_between k (v.handlers i) ≡ true → is_between k (v.handlers j) ≡ true → i ≡ j

  -- Whenever a handler gets its turn, at most one is between its two changes for this PID.
  abbrev pub NoOverlap : List ℕ → Serving table decoders → Type 0
  NoOverlap [] v = Unit {0}
  NoOverlap (i ∷ is) v = IsAlone v × NoOverlap is (turn table decoders i v)

  abbrev pub IsSettled : Serving table decoders → Type 0
  IsSettled v = (i : ℕ) → is_between k (v.handlers i) ≡ false

  module _ (seed : Option Str) where
    abbrev pub Agrees : State table → Type 0
    Agrees s = get s.accounts k ≡ over (in_table table laws s.db k) seed

    data Inv (v : Serving table decoders) : Type 0 where
      settled : IsSettled v → Agrees v.state → Inv v
      between :
          (i : ℕ) (pw : Str)
          → v.handlers i ≡ saved k pw
          → in_table table laws v.state.db k ≡ some pw
          → Inv v

    module _ (v : Serving table decoders) (i : ℕ) where
      abbrev next : Stage × State table
      next = proceed table decoders (v.handlers i) v.state

      saved-between :
          (j : ℕ) (pw : Str) → v.handlers j ≡ saved k pw → is_between k (v.handlers j) ≡ true
      saved-between j pw at = rw at (beq_refl k)

      still :
          (j : ℕ) (pw : Str)
          → is_between k (v.handlers i) ≡ false
          → v.handlers j ≡ saved k pw
          → (turn table decoders i v).handlers j ≡ saved k pw
      unfolding turn
      still j pw before at = elim (Bool-cases (nat_beq i j)) [
        | inl same ↦
            let one : i ≡ j = ground arith in
            absurd (
              false≢true
                (sym before ∙ ap (λ n. is_between k (v.handlers n)) one ∙ saved-between j pw at))
        | inr other ↦ rw other at
      ]

      others-IsSettled :
          ((j : ℕ) → i ≢ j → is_between k (v.handlers j) ≡ false)
          → is_between k next.0 ≡ false
          → IsSettled (turn table decoders i v)
      unfolding turn
      others-IsSettled others own j = elim (Bool-cases (nat_beq i j)) [
        | inl same ↦ rw same own
        | inr other ↦ rw other (others j (ground arith))
      ]

      turn-Inv :
          IsAlone v
          → Effect table laws decoders k (v.handlers i) v.state next.0 next.1
          → Inv v
          → Inv (turn table decoders i v)
      unfolding turn
      turn-Inv alone (quiet before after same kept) (settled all agrees) =
          settled (others-IsSettled (λ j _. all j) after)
            (same ∙ agrees ∙ ap (λ o. over o seed) (sym kept))
      turn-Inv alone (quiet before after same kept) (between j pw at has) =
          between j pw (still j pw before at) (kept ∙ has)
      turn-Inv alone (opens pw before at same kept) _ =
          between i pw (turn-own table decoders i v ∙ at) kept
      turn-Inv alone (closes pw at after same kept) (settled all agrees) =
          absurd (false≢true (sym (all i) ∙ saved-between i pw at))
      turn-Inv alone (closes pw at after same kept) (between j pw' at' has) =
          let one : j ≡ i = alone j i (saved-between j pw' at') (saved-between i pw at) in
          let equal : pw' ≡ pw = cc in
          settled
            (others-IsSettled
              (λ n other. elim (Bool-cases (is_between k (v.handlers n))) [
                | inl too ↦ absurd (other (alone i n (saved-between i pw at) too))
                | inr not_so ↦ not_so
              ])
              after)
            (same ∙ sym (ap (λ o. over o seed) (kept ∙ has ∙ ap some equal)))

    turn-Connected :
        (v : Serving table decoders) (i : ℕ)
        → Connected table laws decoders k v.state
        → Connected table laws decoders k (turn table decoders i v).state
    unfolding turn
    turn-Connected v i on = (proceed-Turns table laws decoders k (v.handlers i) v.state on).0

    turns-Inv :
        (is : List ℕ) (v : Serving table decoders)
        → NoOverlap is v
        → Connected table laws decoders k v.state
        → Inv v
        → Inv (turns table decoders is v)
    unfolding turns
    turns-Inv [] v apart on inv = inv
    turns-Inv (i ∷ is) v apart on inv =
        turns-Inv is (turn table decoders i v) apart.1 (turn-Connected v i on) (
          turn-Inv v i apart.0 (proceed-Turns table laws decoders k (v.handlers i) v.state on).1
            inv)

    -- With a database whose table keeps what is upserted, and registrations that run at the same
    -- time in any order: where the store gives for a PID what the table over `seed` gives, as after
    -- a start of the process, and at each turn at most one handler is between its change of the
    -- table and its change of the store for this PID, then the two agree again whenever no handler
    -- is between the two.
    pub turns-Agrees :
        (requests : ℕ → Request) (s : State table) (is : List ℕ) (db : table.Db)
        → s.db ≡ some db
        → Agrees s
        → NoOverlap is (at_arrival table decoders requests s)
        → IsSettled (turns table decoders is (at_arrival table decoders requests s))
        → Agrees (turns table decoders is (at_arrival table decoders requests s)).state
    turns-Agrees requests s is db on agrees apart all =
        elim (turns-Inv is (at_arrival table decoders requests s) apart (db, on)
          (settled (λ i. refl) agrees)) [
            | settled _ now ↦ now
            | between i pw at _ ↦
                absurd (false≢true (sym (all i) ∙ ap (is_between k) at ∙ beq_refl k))
          ]
