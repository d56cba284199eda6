-- ===== src/Accounts/Tests.antt =====
-- Registration, restart and login at concrete inputs. The table is a list of rows; a request is
-- read as a form whose body is the password, for a fixed PID.
use mathlib.Core.Path.{subst}
use fbf_3ds_servers.Base.{
  true, Env, env, ap, str_beq_iff, ◌≡◌, refl, inr, Option, none, some, List, [], ◌∷◌, ◌++◌, Str,
  txt, str_beq, str_ne, str_eq, lookup, insert, delete, trim_space, contains, split, cut,
  format_uint, parse_uint, if◌then◌else◌, arith,
}
use fbf_3ds_servers.Accounts.Store.{
  ensure_accounts_table, Accounts, AccountTable, get, set, all_pids, seed_accounts_from_env,
  load_accounts_from_db, save_account,
}
use fbf_3ds_servers.Accounts.Register.{
  Request, Decoders, State, http_error, registered, posted, refused, store, handle_register,
}
use fbf_3ds_servers.Accounts.Registered.{
  IsAccepted, Takes, handle_register_refused, handle_register_stored,
}
use fbf_3ds_servers.Accounts.Login.{account_details_by_pid, account_details_by_username}
use fbf_3ds_servers.Accounts.Lookups.{by_username-by_pid, register_other_spelling}
use fbf_3ds_servers.Accounts.Boot.{Driver, open_postgres, boot}
use fbf_3ds_servers.Accounts.Service.{
  Event, request, restart, advance, advance_all, start, learn_all, promises, kept, IsAvailable,
  advance_all-learn_all,
}
use fbf_3ds_servers.Accounts.Restart.{register-restart, IsTable, final_row}

unfoldable pub program : Unit {0}
unfolding handle_register store refused posted save_account set get lookup insert trim_space
    contains parse_uint format_uint account_details_by_pid account_details_by_username all_pids
    seed_accounts_from_env split cut load_accounts_from_db
program = tt

abbrev pub as_rows : Accounts → List (Option (Str × Str))
as_rows [] = []
as_rows (row ∷ rows) = some row ∷ as_rows rows

abbrev pub rows_table : AccountTable
rows_table = record {
  Db = Accounts;
  create = λ db. db;
  upsert = λ pid pw db. some (delete pid db ++ ((pid, pw) ∷ []));
  select = λ db. some (as_rows db);
}

-- The PID is the query of the URL, the password is the body.
abbrev plain_form : Request → Str → Str
plain_form r key = if str_beq key (txt "pid") then r.query else r.body

abbrev pub plain : Decoders
plain = record { decode_json = λ s. none; parse_form = λ limit r. some (plain_form r) }

abbrev pub post : Str → Str → Request
post pid pw = record { method = txt "POST"; content_type = []; query = pid; body = pw }

abbrev empty : State rows_table
empty = record { accounts = []; db = some [] }

abbrev after : State rows_table
after = record {
  accounts = (txt "1900", txt "secret") ∷ [];
  db = some ((txt "1900", txt "secret") ∷ []);
}

register_tests :
    (handle_register rows_table plain (post (txt " 1900") (txt "secret ")) empty
      ≡ (registered, after))
    × (handle_register rows_table plain (post (txt "19x") (txt "s")) empty
        ≡ (http_error (txt "invalid pid") 400, empty))
    × (handle_register rows_table plain (post (txt "19") (txt " ")) empty
        ≡ (http_error (txt "invalid password") 400, empty))
unfolding program delete
register_tests = (refl, refl, refl)

seed_test :
    seed_accounts_from_env (λ k. txt "7:a:b, 8:c,:d,9") []
    ≡ (txt "7", txt "a:b") ∷ (txt "8", txt "c") ∷ []
unfolding program
seed_test = refl

all_pids_test :
    all_pids ((txt "7", []) ∷ (txt "4294967296", []) ∷ (txt "x", []) ∷ (txt "4294967295", []) ∷ [])
    ≡ 7 ∷ 4294967295 ∷ []
unfolding program
all_pids_test = refl

handle_register_refused_example :
    (handle_register rows_table plain (post (txt "19x") (txt "s")) empty).1 ≡ empty
unfolding program
handle_register_refused_example =
    handle_register_refused rows_table plain (post (txt "19x") (txt "s")) empty (omega arith)

handle_register_stored_example :
    (fields : Str × Str) × (posted rows_table plain (post (txt " 1900") (txt "secret "))
      ≡ inr fields)
    × IsAccepted (trim_space fields.0) (trim_space fields.1)
    × Takes rows_table plain
        (trim_space fields.0)
        (trim_space fields.1)
        (some [])
        (handle_register rows_table plain (post (txt " 1900") (txt "secret ")) empty).1.db
    × ((pid : Str)
        → get
            (handle_register rows_table plain (post (txt " 1900") (txt "secret ")) empty).1.accounts
            pid
          ≡ (if str_beq (trim_space fields.0) pid then some (trim_space fields.1) else get [] pid))
unfolding program
handle_register_stored_example =
    handle_register_stored rows_table plain (post (txt " 1900") (txt "secret ")) empty refl

-- "007" is accepted as the PID 7, but is not found under 7.
register_other_spelling_example :
    account_details_by_pid []
      (handle_register rows_table plain (post (txt "007") (txt "secret")) empty).1.accounts
      7
    ≡ account_details_by_pid [] [] 7
unfolding program
register_other_spelling_example =
    register_other_spelling rows_table plain [] (post (txt "007") (txt "secret")) empty
      (txt "007", txt "secret") 7 refl refl (str_ne (txt "007") (format_uint 7) refl)

-- The table keeps what Postgres promises.
pub final_row-upsert :
    (pid pw k : Str) (db : Accounts)
    → final_row k (as_rows (delete pid db ++ ((pid, pw) ∷ [])))
      ≡ (if str_beq pid k then some pw else final_row k (as_rows db))
unfolding delete
final_row-upsert pid pw k [] = ground arith
final_row-upsert pid pw k ((p, w) ∷ db) =
    ground
      (arith, str_beq_iff p pid, str_beq_iff pid k, str_beq_iff p k, final_row-upsert pid pw k db)

unfoldable pub rows_table-IsTable : IsTable rows_table
rows_table-IsTable = record {
  contents = λ db k. final_row k (as_rows db);
  contents_upsert = λ pid pw db db' h k.
      let same : (delete pid db ++ ((pid, pw) ∷ [])) ≡ db' = cc in
      subst
        (λ x.
          final_row k (as_rows x) ≡ (if str_beq pid k then some pw else final_row k (as_rows db)))
        same (final_row-upsert pid pw k db);
  select_contents = λ db rows h k. let same : rows ≡ as_rows db = cc in ap (final_row k) same;
}

abbrev pub reachable : Driver
reachable = record { opens = λ uri. true; pings = λ uri. true }

-- One account in the environment, and an address of a database.
abbrev pub configured : Env
configured key =
    if str_beq key (txt "FFE_POSTGRES_URI")
    then txt "postgres://db"
    else if str_beq key (txt "FFE_NEX_ACCOUNTS")
    then txt "1900:old,1901:kept"
    else []

abbrev day : List Event
day = request (post (txt "1900") (txt "new")) ∷ restart ∷ request (post (txt "x") (txt "y")) ∷ []

pub rows_table-IsAvailable : IsAvailable rows_table plain reachable configured rows_table-IsTable
unfolding env
rows_table-IsAvailable = record {
  uri = refl;
  opens = refl;
  pings = refl;
  create_keeps = λ db k. refl;
  readable = λ db. (as_rows db, refl);
}

run_tests :
    (promises rows_table plain reachable configured day
        (start rows_table plain reachable configured [])
      ≡ some (txt "1900", txt "new") ∷ none ∷ none ∷ [])
    × (get
          (advance_all rows_table plain reachable configured day
            (start rows_table plain reachable configured [])).state.accounts
          (txt "1900")
        ≡ some (txt "new"))
unfolding program delete open_postgres boot advance advance_all env ensure_accounts_table
run_tests = (refl, refl)

advance_all-learn_all_example :
    (get
        (advance_all rows_table plain reachable configured day
          (start rows_table plain reachable configured [])).state.accounts
        (txt "1901")
      ≡ learn_all
          (promises rows_table plain reachable configured day
            (start rows_table plain reachable configured []))
          (kept rows_table plain reachable configured rows_table-IsTable rows_table-IsAvailable [])
          (txt "1901"))
    × (kept rows_table plain reachable configured rows_table-IsTable rows_table-IsAvailable
          (advance_all rows_table plain reachable configured day
            (start rows_table plain reachable configured [])).disk
          (txt "1901")
        ≡ learn_all
            (promises rows_table plain reachable configured day
              (start rows_table plain reachable configured []))
            (kept rows_table plain reachable configured rows_table-IsTable rows_table-IsAvailable
              [])
            (txt "1901"))
advance_all-learn_all_example =
    advance_all-learn_all rows_table plain reachable configured rows_table-IsTable
      rows_table-IsAvailable [] day (txt "1901")

by_username-by_pid_example :
    account_details_by_username [] after.accounts (format_uint 1900)
    ≡ some (account_details_by_pid [] after.accounts 1900)
by_username-by_pid_example =
    by_username-by_pid [] after.accounts 1900 (omega arith) (omega arith) (omega arith)

register-restart_example :
    get
      (load_accounts_from_db rows_table
        (some after.accounts)
        (seed_accounts_from_env (λ k. txt "1900:old") []))
      (trim_space (txt " 1900"))
    ≡ some (trim_space (txt "secret "))
unfolding program delete
register-restart_example =
    register-restart rows_table plain rows_table-IsTable (post (txt " 1900") (txt "secret ")) empty
      (txt " 1900", txt "secret ") [] after.accounts (some (txt "1900", txt "secret") ∷ [])
      (λ k. txt "1900:old") refl refl refl refl refl
