-- ===== src/Accounts/Concurrent/Crossed.antt =====
-- Two registrations of server/register.go for one PID that cross: the first to reach the table is
-- the last to reach the store.
use fbf_3ds_servers.Base.{
  ℕ, ◌≡◌, ◌≢◌, refl, sym, ap, ◌∙◌, Option, some, List, [], ◌∷◌, Str, str_eq, nat_eq, beq_refl,
  beq_ne, Env, lookup-insert_self,
}
use fbf_3ds_servers.Accounts.Store.{
  AccountTable, get, set, save_account, load_accounts_from_db, seed_accounts_from_env,
}
use fbf_3ds_servers.Accounts.Register.{Request, Decoders, State, registered}
use fbf_3ds_servers.Accounts.Restart.{IsTable, lookup-load}
use fbf_3ds_servers.Accounts.Concurrent.{
  received, saved, answered, update, Serving, at_arrival, turn, turns,
}
use fbf_3ds_servers.Accounts.Concurrent.Effects.{IsPost}
use fbf_3ds_servers.Accounts.Concurrent.Alone.{turn_saves, turn_stores}

module _ (table : AccountTable) (decoders : Decoders) where
  save_account-some :
      (pid pw : Str) (db db' : table.Db) (o : Option table.Db)
      → o ≡ some db
      → table.upsert pid pw db ≡ some db'
      → save_account table pid pw o ≡ some (some db')
  unfolding save_account
  save_account-some pid pw db db' o on took = rw (on, save_account, took)

  module _ (requests : ℕ → Request) (s : State table) (i j : ℕ) (apart : i ≢ j) (k pw pw' : Str)
      (first : IsPost table decoders (requests i) k pw)
      (second : IsPost table decoders (requests j) k pw') (db db1 db2 : table.Db)
      (on : s.db ≡ some db) (took : table.upsert k pw db ≡ some db1)
      (took' : table.upsert k pw' db1 ≡ some db2) where
    abbrev pub crossed : Serving table decoders
    crossed = turns table decoders (i ∷ j ∷ j ∷ i ∷ []) (at_arrival table decoders requests s)

    abbrev one_saved : Serving table decoders
    one_saved = record {
      handlers = update (λ n. received (requests n)) i (saved k pw);
      state = record s { db = some db1 };
    }

    abbrev both_saved : Serving table decoders
    both_saved = record {
      handlers = update one_saved.handlers j (saved k pw');
      state = record s { db = some db2 };
    }

    abbrev one_stored : Serving table decoders
    one_stored = record {
      handlers = update both_saved.handlers j (answered registered);
      state = record { accounts = set k pw' s.accounts; db = some db2 };
    }

    abbrev both_stored : Serving table decoders
    both_stored = record {
      handlers = update one_stored.handlers i (answered registered);
      state = record { accounts = set k pw (set k pw' s.accounts); db = some db2 };
    }

    crossed_lem : crossed ≡ both_stored
    unfolding turns
    crossed_lem =
        let v = at_arrival table decoders requests s in
        let go = turn table decoders in
        let self = beq_refl j in
        let swap = beq_ne i j apart in
        let swap' = beq_ne j i (λ e. apart (sym e)) in
        let self' = beq_refl i in
        let e1 : go i v ≡ one_saved =
          turn_saves table decoders i v (requests i) k pw (some db1) refl first
            (save_account-some k pw db db1 s.db on took) in
        let e2 : go j one_saved ≡ both_saved =
          turn_saves table decoders j one_saved (requests j) k pw' (some db2) (rw swap refl) second
            (save_account-some k pw' db1 db2 (some db1) refl took') in
        let e3 : go j both_saved ≡ one_stored =
          turn_stores table decoders j both_saved k pw' (rw self refl) in
        let e4 : go i one_stored ≡ both_stored =
          turn_stores table decoders i one_stored k pw (rw (swap', self') refl) in
        ap (λ x. go i (go j (go j x))) e1 ∙ ap (λ x. go i (go j x)) e2 ∙ ap (go i) e3 ∙ e4

    -- With a database whose table keeps what is upserted: where two requests pass the checks with the
    -- same PID and the table takes both, there is an order of their turns that ends with both
    -- answered with status 200, the store with the password of one, and, whatever FFE_NEX_ACCOUNTS
    -- holds, a restart that can read the table with the password of the other: the request whose row
    -- was overwritten was the last to reach the store.
    pub turns-crossed :
        (laws : IsTable table) (getenv : Env) (rows : List (Option (Str × Str)))
        → table.select db2 ≡ some rows
        → (crossed.handlers i ≡ answered registered)
          × (crossed.handlers j ≡ answered registered)
          × (get crossed.state.accounts k ≡ some pw)
          × (get (load_accounts_from_db table crossed.state.db (seed_accounts_from_env getenv [])) k
              ≡ some pw')
    unfolding get set
    turns-crossed laws getenv rows readable =
        let self = beq_refl j in
        let swap = beq_ne i j apart in
        let self' = beq_refl i in
        let row =
          laws.select_contents db2 rows readable k ∙ laws.contents_upsert k pw' db1 db2 took' k in
        (
          ap (λ v. v.handlers i) crossed_lem ∙ rw self' refl,
          ap (λ v. v.handlers j) crossed_lem ∙ rw (swap, self) refl,
          ap (λ v. get v.state.accounts k) crossed_lem
              ∙ lookup-insert_self k pw (set k pw' s.accounts),
          ap
                (λ v.
                  get (load_accounts_from_db table v.state.db (seed_accounts_from_env getenv [])) k)
                crossed_lem
              ∙ lookup-load table k db2 rows (seed_accounts_from_env getenv []) readable
              ∙ rw (row, beq_refl k) refl,
        )
