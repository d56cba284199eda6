-- ===== src/Accounts/Concurrent/Tests.antt =====
-- Registrations that run at the same time, at concrete inputs.
use mathlib.Core.Bool.{false≢true}
use fbf_3ds_servers.Base.{
  ℕ, zero, suc, ◌≡◌, ◌≢◌, refl, sym, ◌∙◌, true, false, none, some, List, [], ◌∷◌, txt, nat_beq,
  nat_eq, beq_ne, nat_beq_iff, arith, delete, Bool-cases, inl, inr,
}
use fbf_3ds_servers.Accounts.Store.{get, load_accounts_from_db, seed_accounts_from_env}
use fbf_3ds_servers.Accounts.Register.{Request, State, registered}
use fbf_3ds_servers.Accounts.Tests.{program, rows_table, plain, post, rows_table-IsTable}
use fbf_3ds_servers.Accounts.Concurrent.{
  saved, answered, is_between, check_and_save, receive, proceed, Serving, at_arrival, turn, turns,
}
use fbf_3ds_servers.Accounts.Concurrent.Effects.{IsPost}
use fbf_3ds_servers.Accounts.Concurrent.Turns.{in_table}
use fbf_3ds_servers.Accounts.Concurrent.Agreement.{
  IsAlone, NoOverlap, IsSettled, Agrees, turns-Agrees,
}
use fbf_3ds_servers.Accounts.Concurrent.Origin.{ComesFrom, turns-ComesFrom}
use fbf_3ds_servers.Accounts.Concurrent.Crossed.{turns-crossed}

code : Unit {0}
unfolding check_and_save receive proceed turn turns program delete
code = tt

-- The first request posts one password for the PID 1900, all others another.
abbrev requests : ℕ → Request
requests zero = post (txt "1900") (txt "old")
requests (suc n) = post (txt "1900") (txt "new")

abbrev fresh : State rows_table
fresh = record { accounts = []; db = some [] }

abbrev both : Serving rows_table plain
both = at_arrival rows_table plain requests fresh

first-IsPost : IsPost rows_table plain (requests 0) (txt "1900") (txt "old")
unfolding code
first-IsPost = record {
  method = refl;
  fields = (txt "1900", txt "old");
  read = refl;
  pid_field = refl;
  pw_field = refl;
  passed = refl;
}

second-IsPost : IsPost rows_table plain (requests 1) (txt "1900") (txt "new")
unfolding code
second-IsPost = record {
  method = refl;
  fields = (txt "1900", txt "new");
  read = refl;
  pid_field = refl;
  pw_field = refl;
  passed = refl;
}

turns_tests :
    ((turns rows_table plain (0 ∷ 1 ∷ 0 ∷ []) both).handlers 1 ≡ saved (txt "1900") (txt "new"))
    × ((turns rows_table plain (0 ∷ 1 ∷ 1 ∷ 0 ∷ []) both).state ≡ record {
      accounts = (txt "1900", txt "old") ∷ [];
      db = some ((txt "1900", txt "new") ∷ []);
    })
unfolding code
turns_tests = (refl, refl)

turns-ComesFrom_example :
    ComesFrom rows_table rows_table-IsTable plain requests
      (txt "1900")
      (get [] (txt "1900"))
      (get (turns rows_table plain (0 ∷ 1 ∷ 0 ∷ []) both).state.accounts (txt "1900"))
    × ComesFrom rows_table rows_table-IsTable plain requests
        (txt "1900")
        (in_table rows_table rows_table-IsTable (some []) (txt "1900"))
        (in_table rows_table rows_table-IsTable
          (turns rows_table plain (0 ∷ 1 ∷ 0 ∷ []) both).state.db
          (txt "1900"))
turns-ComesFrom_example =
    turns-ComesFrom rows_table rows_table-IsTable plain requests fresh (0 ∷ 1 ∷ 0 ∷ []) []
      (txt "1900") refl

turns-crossed_example :
    ((turns rows_table plain (0 ∷ 1 ∷ 1 ∷ 0 ∷ []) both).handlers 0 ≡ answered registered)
    × ((turns rows_table plain (0 ∷ 1 ∷ 1 ∷ 0 ∷ []) both).handlers 1 ≡ answered registered)
    × (get (turns rows_table plain (0 ∷ 1 ∷ 1 ∷ 0 ∷ []) both).state.accounts (txt "1900")
        ≡ some (txt "old"))
    × (get
          (load_accounts_from_db rows_table
            (turns rows_table plain (0 ∷ 1 ∷ 1 ∷ 0 ∷ []) both).state.db
            (seed_accounts_from_env (λ k. []) []))
          (txt "1900")
        ≡ some (txt "new"))
unfolding code
turns-crossed_example =
    turns-crossed rows_table plain requests fresh 0 1 (λ e. omega arith) (txt "1900") (txt "old")
      (txt "new") first-IsPost second-IsPost [] ((txt "1900", txt "old") ∷ [])
      ((txt "1900", txt "new") ∷ []) refl refl refl rows_table-IsTable (λ k. [])
      (some (txt "1900", txt "new") ∷ []) refl

abbrev in_turn : List ℕ
in_turn = 0 ∷ 0 ∷ 1 ∷ 1 ∷ []

abbrev OutBut : ℕ → List ℕ → Type 0
OutBut m is =
    (n : ℕ) → m ≢ n → is_between (txt "1900") ((turns rows_table plain is both).handlers n) ≡ false

the_one :
    (m n : ℕ) (is : List ℕ)
    → OutBut m is
    → is_between (txt "1900") ((turns rows_table plain is both).handlers n) ≡ true
    → m ≡ n
the_one m n is out between = elim (Bool-cases (nat_beq m n)) [
  | inl same ↦ (nat_beq_iff m n).0 same
  | inr other ↦ absurd (false≢true (sym (out n (ground arith)) ∙ between))
]

alone :
    (m : ℕ) (is : List ℕ)
    → OutBut m is
    → IsAlone rows_table rows_table-IsTable plain (txt "1900") (turns rows_table plain is both)
alone m is out i j e e' = sym (the_one m i is out e) ∙ the_one m j is out e'

before_all : OutBut 0 []
unfolding code
before_all n _ = refl

first_between : OutBut 0 (0 ∷ [])
unfolding code
first_between zero h = absurd (h refl)
first_between (suc n) h = let other = beq_ne 0 (suc n) (λ e. omega arith) in rw other refl

first_done : OutBut 0 (0 ∷ 0 ∷ [])
unfolding code
first_done zero h = refl
first_done (suc n) h = let other = beq_ne 0 (suc n) (λ e. omega arith) in rw other refl

second_between : OutBut 1 (0 ∷ 0 ∷ 1 ∷ [])
unfolding code
second_between zero h = refl
second_between (suc zero) h = absurd (h refl)
second_between (suc (suc n)) h =
    let other = beq_ne 1 (suc (suc n)) (λ e. omega arith) in
    let other' = beq_ne 0 (suc (suc n)) (λ e. omega arith) in rw (other, other') refl

in_turn-NoOverlap : NoOverlap rows_table rows_table-IsTable plain (txt "1900") in_turn both
unfolding turns
in_turn-NoOverlap = (
  alone 0 [] before_all,
  (
    alone 0 (0 ∷ []) first_between,
    (alone 0 (0 ∷ 0 ∷ []) first_done, (alone 1 (0 ∷ 0 ∷ 1 ∷ []) second_between, tt)),
  ),
)

in_turn-IsSettled :
    IsSettled rows_table rows_table-IsTable plain (txt "1900") (turns rows_table plain in_turn both)
unfolding code
in_turn-IsSettled zero = refl
in_turn-IsSettled (suc zero) = refl
in_turn-IsSettled (suc (suc n)) =
    let other = beq_ne 1 (suc (suc n)) (λ e. omega arith) in
    let other' = beq_ne 0 (suc (suc n)) (λ e. omega arith) in rw (other, other') refl

turns-Agrees_example :
    Agrees rows_table rows_table-IsTable plain
      (txt "1900")
      none
      (turns rows_table plain in_turn both).state
unfolding get rows_table-IsTable program
turns-Agrees_example =
    turns-Agrees rows_table rows_table-IsTable plain (txt "1900") none requests fresh in_turn []
      refl refl in_turn-NoOverlap in_turn-IsSettled
