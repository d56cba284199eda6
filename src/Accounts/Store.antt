-- ===== src/Accounts/Store.antt =====
-- The account store of server/register.go: a map from PID text to password, seeded from the
-- environment and from the table ffe_accounts. The table is outside; what is asked of it is a
-- record of operations. A statement that fails is taken to leave the table as it was.
use fbf_3ds_servers.Base.{
  ℕ, Option, none, some, List, [], ◌∷◌, Str, txt, str_eq, lookup, insert, length, Env, split,
  trim_space, cut, parse_uint,
}

abbrev pub Accounts : Type 0
Accounts = List (Str × Str)

-- accountStore.get
unfoldable pub get : Accounts → Str → Option Str
get m pid = lookup pid m

-- accountStore.set
unfoldable pub set : Str → Str → Accounts → Accounts
set pid pw m = insert pid pw m

-- accountStore.allPIDs: a text that is no number of 32 bits is passed over.
unfoldable pub all_pids : Accounts → List ℕ
all_pids [] = []
all_pids ((pid, _) ∷ m) = elim (parse_uint 32 pid) [ none ↦ all_pids m | some n ↦ n ∷ all_pids m ]

-- accountStore.size
unfoldable pub size : Accounts → ℕ
size m = length m

-- One pair of FFE_NEX_ACCOUNTS: `i := strings.Index(pair, ":"); i > 0`.
unfoldable pub seed_pair : Str → Accounts → Accounts
unfolding set
seed_pair pair m = elim (cut b':' (trim_space pair)) [
  | none ↦ m
  | some ([], pw) ↦ m
  | some (c ∷ pid, pw) ↦ set (c ∷ pid) pw m
]

unfoldable pub seed_pairs : List Str → Accounts → Accounts
unfolding seed_pair
seed_pairs [] m = m
seed_pairs (pair ∷ pairs) m = seed_pairs pairs (seed_pair pair m)

-- seedAccountsFromEnv
unfoldable pub seed_accounts_from_env : Env → Accounts → Accounts
unfolding seed_pairs
seed_accounts_from_env getenv m = seed_pairs (split b',' (getenv (txt "FFE_NEX_ACCOUNTS"))) m

-- The table ffe_accounts. A statement that fails gives none.
pub record AccountTable : Type 1 where
  pub Db : Type 0
  pub create : Db → Db
  -- INSERT … ON CONFLICT (pid) DO UPDATE SET password = EXCLUDED.password
  pub upsert : Str → Str → Db → Option Db
  -- SELECT pid, password: a row that cannot be scanned is none.
  pub select : Db → Option (List (Option (Str × Str)))

module _ (table : AccountTable) where
  open table use {Db, create, upsert, select}

  -- ensureAccountsTable: none is the nil `postgres`.
  unfoldable pub ensure_accounts_table : Option Db → Option Db
  ensure_accounts_table none = none
  ensure_accounts_table (some db) = some (create db)

  -- The loop over the rows.
  unfoldable pub load_rows : List (Option (Str × Str)) → Accounts → Accounts
  unfolding set
  load_rows [] m = m
  load_rows (none ∷ rows) m = load_rows rows m
  load_rows (some (pid, pw) ∷ rows) m = load_rows rows (set pid pw m)

  -- loadAccountsFromDB
  unfoldable pub load_accounts_from_db : Option Db → Accounts → Accounts
  unfolding load_rows
  load_accounts_from_db none m = m
  load_accounts_from_db (some db) m = elim (select db) [ none ↦ m | some rows ↦ load_rows rows m ]

  -- saveAccount: the outer none is the error.
  unfoldable pub save_account : Str → Str → Option Db → Option (Option Db)
  save_account pid pw none = some none
  save_account pid pw (some db) = elim (upsert pid pw db) [
    | none ↦ none
    | some db' ↦ some (some db')
  ]
