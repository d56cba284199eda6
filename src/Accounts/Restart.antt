-- ===== src/Accounts/Restart.antt =====
-- A registration outlives a restart: the table gives back what was registered, over whatever the
-- environment seeds.
use fbf_3ds_servers.Base.{
  ◌≡◌, refl, sym, ap, ◌∙◌, inr, Option, none, some, List, [], ◌∷◌, Str, str_beq, str_eq, beq_refl,
  lookup, insert, lookup-insert, Env, trim_space, if◌then◌else◌, arith,
}
use fbf_3ds_servers.Accounts.Store.{
  Accounts, AccountTable, get, set, load_rows, load_accounts_from_db, save_account,
  seed_accounts_from_env,
}
use fbf_3ds_servers.Accounts.Register.{Request, Decoders, State, posted, handle_register}
use fbf_3ds_servers.Accounts.Registered.{stored_fields}

-- The last of the rows for a PID.
abbrev pub final_row : Str → List (Option (Str × Str)) → Option Str
final_row k [] = none
final_row k (none ∷ rows) = final_row k rows
final_row k (some (pid, pw) ∷ rows) = elim (final_row k rows) [
  | some later ↦ some later
  | none ↦ if str_beq pid k then some pw else none
]

-- What Postgres promises of ffe_accounts: a table with the key `pid`, whose rows a SELECT returns.
pub record IsTable (table : AccountTable) : Type 0 where
  pub contents : table.Db → Str → Option Str
  pub contents_upsert :
      (pid pw : Str) (db db' : table.Db)
      → table.upsert pid pw db ≡ some db'
      → (k : Str) → contents db' k ≡ (if str_beq pid k then some pw else contents db k)
  pub select_contents :
      (db : table.Db) (rows : List (Option (Str × Str)))
      → table.select db ≡ some rows
      → (k : Str) → final_row k rows ≡ contents db k

abbrev pub over : Option Str → Option Str → Option Str
over (some pw) old = some pw
over none old = old

module _ (table : AccountTable) where
  -- The rows override what was there before.
  lookup-load_rows :
      (k : Str) (rows : List (Option (Str × Str))) (m : Accounts)
      → lookup k (load_rows table rows m) ≡ over (final_row k rows) (lookup k m)
  unfolding load_rows set
  lookup-load_rows k [] m = refl
  lookup-load_rows k (none ∷ rows) m = lookup-load_rows k rows m
  lookup-load_rows k (some (pid, pw) ∷ rows) m =
      ground (arith, lookup-load_rows k rows (insert pid pw m), lookup-insert pid k pw m)

  pub lookup-load :
      (k : Str) (db : table.Db) (rows : List (Option (Str × Str))) (m : Accounts)
      → table.select db ≡ some rows
      → lookup k (load_accounts_from_db table (some db) m) ≡ over (final_row k rows) (lookup k m)
  unfolding load_accounts_from_db
  lookup-load k db rows m selected =
      rw (selected, load_accounts_from_db) (lookup-load_rows k rows m)

  saved_upsert :
      (pid pw : Str) (db db' : table.Db)
      → save_account table pid pw (some db) ≡ some (some db')
      → table.upsert pid pw db ≡ some db'
  unfolding save_account
  saved_upsert pid pw db db' h = ground arith

  -- With a database whose table keeps what is upserted: after a registration that was answered
  -- with status 200, a restart that can read the table gives the console the password that it
  -- registered, whatever FFE_NEX_ACCOUNTS holds.
  pub register-restart :
      (decoders : Decoders) (laws : IsTable table) (r : Request) (s : State table)
      (fields : Str × Str) (db db' : table.Db) (rows : List (Option (Str × Str))) (getenv : Env)
      → (handle_register table decoders r s).0.status ≡ 200
      → posted table decoders r ≡ inr fields
      → s.db ≡ some db
      → (handle_register table decoders r s).1.db ≡ some db'
      → table.select db' ≡ some rows
      → get
          (load_accounts_from_db table (some db') (seed_accounts_from_env getenv []))
          (trim_space fields.0)
        ≡ some (trim_space fields.1)
  unfolding get
  register-restart decoders laws r s fields db db' rows getenv ok read had has selected =
      let pid = trim_space fields.0 in
      let pw = trim_space fields.1 in
      let saved = (stored_fields table decoders r s fields ok read).0 in
      let row =
        laws.select_contents db' rows selected pid
        ∙ laws.contents_upsert pid pw db db'
            (saved_upsert pid pw db db'
              (ap (save_account table pid pw) (sym had) ∙ saved ∙ ap some has))
            pid in
      lookup-load pid db' rows (seed_accounts_from_env getenv []) selected ∙ rw (row, beq_refl pid)
