-- ===== src/Accounts/Concurrent/Alone.antt =====
-- The handler of server/register.go, turn by turn, and as a whole.
use mathlib.Core.Path.{subst}
use mathlib.Core.Bool.{false≢true}
use fbf_3ds_servers.Base.{
  ℕ, inl, inr, nat_beq, Bool-cases, sym, ◌≡◌, ◌≢◌, refl, ap, ◌∙◌, Option, none, some, Str, str_eq,
  nat_eq, nat_beq_iff, beq_ne, [], ◌∷◌,
}
use fbf_3ds_servers.Accounts.Store.{AccountTable, set, save_account}
use fbf_3ds_servers.Accounts.Register.{
  Request, Decoders, State, registered, refused, handle_register,
}
use fbf_3ds_servers.Accounts.Concurrent.{
  Stage, received, saved, answered, update, check_and_save, receive, proceed, Serving, turn, turns,
}
use fbf_3ds_servers.Accounts.Concurrent.Effects.{IsPost, receive-handle_register}

module _ (table : AccountTable) (decoders : Decoders) where
  -- A request that passes the checks and that the table takes.
  pub turn-own :
      (i : ℕ) (v : Serving table decoders)
      → (turn table decoders i v).handlers i ≡ (proceed table decoders (v.handlers i) v.state).0
  unfolding turn
  turn-own i v = let same = (nat_beq_iff i i).1 refl in rw same refl

  pub turn-other :
      (i j : ℕ) (v : Serving table decoders)
      → i ≢ j
      → (turn table decoders i v).handlers j ≡ v.handlers j
  unfolding turn
  turn-other i j v other = let apart = beq_ne i j other in rw apart refl

  check_and_save_passed :
      (pid pw : Str) (s : State table) (db' : Option table.Db)
      → refused table decoders pid pw ≡ none
      → save_account table pid pw s.db ≡ some db'
      → check_and_save table decoders pid pw s ≡ (saved pid pw, record s { db = db' })
  unfolding check_and_save
  check_and_save_passed pid pw s db' passed took = rw (passed, check_and_save, took)

  receive_post :
      (r : Request) (pid pw : Str) (s : State table) (db' : Option table.Db)
      → IsPost table decoders r pid pw
      → save_account table pid pw s.db ≡ some db'
      → receive table decoders r s ≡ (saved pid pw, record s { db = db' })
  unfolding receive
  receive_post r pid pw s db' post took =
      rw (receive, post.method, post.read, post.pid_field, post.pw_field)
        (check_and_save_passed pid pw s db' post.passed took)

  pub turn_saves :
      (i : ℕ) (v : Serving table decoders) (r : Request) (pid pw : Str) (db' : Option table.Db)
      → v.handlers i ≡ received r
      → IsPost table decoders r pid pw
      → save_account table pid pw v.state.db ≡ some db'
      → turn table decoders i v ≡ record {
        handlers = update v.handlers i (saved pid pw);
        state = record v.state { db = db' };
      }
  unfolding turn proceed
  turn_saves i v r pid pw db' at post took =
      rw (turn, at, proceed, receive_post r pid pw v.state db' post took)

  pub turn_stores :
      (i : ℕ) (v : Serving table decoders) (pid pw : Str)
      → v.handlers i ≡ saved pid pw
      → turn table decoders i v ≡ record {
        handlers = update v.handlers i (answered registered);
        state = record v.state { accounts = set pid pw v.state.accounts };
      }
  unfolding turn proceed
  turn_stores i v pid pw at = rw (turn, at, proceed)

  replaced :
      (i j : ℕ) (v w : Serving table decoders) (h : Stage)
      → w.handlers i ≡ h
      → (i ≢ j → w.handlers j ≡ v.handlers j)
      → w.handlers j ≡ update v.handlers i h j
  replaced i j v w h own other = elim (Bool-cases (nat_beq i j)) [
    | inl same ↦ rw same (subst (λ n. w.handlers n ≡ h) ((nat_beq_iff i j).0 same) own)
    | inr apart ↦ rw apart (other (λ e. absurd (false≢true (sym apart ∙ (nat_beq_iff i j).1 e))))
  ]

  -- A handler that nobody interrupts is handleRegister as a whole: where it is given two turns in a
  -- row, it answers what the whole handler answers, what is shared becomes what the whole handler
  -- makes of it, and every other handler stands where it stood.
  turns-handle_register :
      (i : ℕ) (v : Serving table decoders) (r : Request)
      → v.handlers i ≡ received r
      → ((turns table decoders (i ∷ i ∷ []) v).state ≡ (handle_register table decoders r v.state).1)
        × ((j : ℕ)
            → (turns table decoders (i ∷ i ∷ []) v).handlers j
              ≡ update v.handlers i (answered (handle_register table decoders r v.state).0) j)
  unfolding turns turn
  turns-handle_register i v r at =
      let v' = turn table decoders i v in
      let first : ((v'.handlers i, v'.state) ≡ receive table decoders r v.state) =
        ap (λ h. (h, v'.state)) (turn-own i v) ∙ rw at refl in
      let whole =
        ap (λ o. proceed table decoders o.0 o.1) first
        ∙ receive-handle_register table decoders r v.state in
      (
        ap (λ o. o.1) whole,
        λ j.
            replaced i j v (turn table decoders i v')
              (answered (handle_register table decoders r v.state).0)
              (turn-own i v' ∙ ap (λ o. o.0) whole)
              (λ apart. turn-other i j v' apart ∙ turn-other i j v apart),
      )
