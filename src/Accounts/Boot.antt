-- ===== src/Accounts/Boot.antt =====
-- The start of the process: openPostgres, and what main does to the accounts before anything else.
use fbf_3ds_servers.Base.{
  Bool, not, Option, none, some, [], Str, txt, str_beq, Env, env, if◌then◌else◌,
}
use fbf_3ds_servers.Accounts.Store.{
  AccountTable, seed_accounts_from_env, ensure_accounts_table, load_accounts_from_db,
}
use fbf_3ds_servers.Accounts.Register.{State}

-- What openPostgres asks of database/sql at this moment, for an address.
pub record Driver : Type 0 where
  pub opens : Str → Bool
  pub pings : Str → Bool

module _ (table : AccountTable) (driver : Driver) (getenv : Env) where
  -- openPostgres, where the database holds `disk`: none is the nil `postgres`.
  unfoldable pub open_postgres : table.Db → Option table.Db
  open_postgres disk =
      let uri = env getenv (txt "FFE_POSTGRES_URI") [] in
      if str_beq uri []
      then none
      else if not (driver.opens uri)
      then none
      else if not (driver.pings uri)
      then none
      else some disk

  -- main, up to loadAccountsFromDB.
  unfoldable pub boot : table.Db → State table
  unfolding open_postgres
  boot disk =
      let db = ensure_accounts_table table (open_postgres disk) in
      record {
        accounts = load_accounts_from_db table db (seed_accounts_from_env getenv []);
        db = db;
      }
