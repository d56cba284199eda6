-- ===== src/Accounts/Concurrent.antt =====
-- Requests for registration that are served at the same time. Package net/http runs handleRegister
-- of server/register.go in a goroutine for each request. The handler changes two shared things, the
-- table and then the store, and each of the two changes is atomic: the first is a statement of the
-- database, the second is made under the lock of the store. Between the two, others may run.
pub mod Effects
pub mod Alone
pub mod Turns
pub mod Agreement
pub mod Origin
pub mod Crossed
pub mod Crash
mod Tests
use fbf_3ds_servers.Base.{
  ℕ, inl, inr, not, none, some, List, [], ◌∷◌, Str, txt, str_beq, nat_beq, if◌then◌else◌, Bool,
  false, trim_space,
}
use fbf_3ds_servers.Accounts.Store.{AccountTable, set, save_account}
use fbf_3ds_servers.Accounts.Register.{
  Request, Response, Decoders, http_error, registered, State, posted, refused,
}

-- Where a handler stands.
pub data Stage : Type 0 where
  -- Before the change of the table.
  received : Request → Stage
  -- Behind saveAccount, before accounts.set: the trimmed fields.
  saved : Str → Str → Stage
  answered : Response → Stage

-- Between its two changes, for this PID.
abbrev pub is_between : Str → Stage → Bool
is_between k (saved pid pw) = str_beq pid k
is_between k _ = false

-- The family with one value replaced.
abbrev pub update {ℓ} : {A : Type ℓ} → (ℕ → A) → ℕ → A → ℕ → A
update f i a j = if nat_beq i j then a else f j

module _ (table : AccountTable) (decoders : Decoders) where
  -- From the checks to the return of saveAccount.
  unfoldable pub check_and_save : Str → Str → State table → Stage × State table
  unfolding refused save_account
  check_and_save pid pw s = elim (refused table decoders pid pw) [
    | some response ↦ (answered response, s)
    | none ↦ elim (save_account table pid pw s.db) [
      | none ↦ (answered (http_error (txt "server error") 500), s)
      | some db' ↦ (saved pid pw, record s { db = db' })
    ]
  ]

  -- From the start of the handler to there.
  unfoldable pub receive : Request → State table → Stage × State table
  unfolding check_and_save posted
  receive r s =
      if not (str_beq r.method (txt "POST"))
      then (answered (http_error (txt "POST only") 405), s)
      else elim (posted table decoders r) [
        | inl response ↦ (answered response, s)
        | inr (pid, pw) ↦ check_and_save (trim_space pid) (trim_space pw) s
      ]

  -- A handler runs up to its next change of something shared, that change included.
  unfoldable pub proceed : Stage → State table → Stage × State table
  unfolding receive
  proceed (received r) s = receive r s
  proceed (saved pid pw) s = (answered registered, record s { accounts = set pid pw s.accounts })
  proceed (answered response) s = (answered response, s)

  -- The handlers, one for each request, over what they share.
  pub record Serving : Type 0 where
    pub handlers : ℕ → Stage
    pub state : State table

  abbrev pub at_arrival : (ℕ → Request) → State table → Serving
  at_arrival requests s = record { handlers = λ i. received (requests i); state = s }

  -- The scheduler picks a handler.
  unfoldable pub turn : ℕ → Serving → Serving
  unfolding proceed
  turn i v = record {
    handlers = update v.handlers i (proceed (v.handlers i) v.state).0;
    state = (proceed (v.handlers i) v.state).1;
  }

  unfoldable pub turns : List ℕ → Serving → Serving
  unfolding turn
  turns [] v = v
  turns (i ∷ is) v = turns is (turn i v)
