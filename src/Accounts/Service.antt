-- ===== src/Accounts/Service.antt =====
-- Requests for registration and restarts of the process, in any order, over one database.
use mathlib.Core.Path.{subst}
use mathlib.Core.Bool.{false≢true}
use fbf_3ds_servers.Base.{
  ◌≡◌, ◌⊎◌, refl, sym, ap, ◌∙◌, inl, inr, true, false, Option, none, some, List, [], ◌∷◌, Str, txt,
  str_beq, str_eq, nat_beq, nat_beq_iff, Env, env, trim_space, if◌then◌else◌, Bool-cases,
  Option-cases, arith,
}
use fbf_3ds_servers.Accounts.Store.{
  AccountTable, get, save_account, seed_accounts_from_env, ensure_accounts_table,
}
use fbf_3ds_servers.Accounts.Register.{Request, Decoders, State, posted, handle_register}
use fbf_3ds_servers.Accounts.Registered.{handle_register_refused, handle_register_saved}
use fbf_3ds_servers.Accounts.Restart.{IsTable, over, lookup-load}
use fbf_3ds_servers.Accounts.Boot.{Driver, open_postgres, boot}

pub data Event : Type 0 where
  request : Request → Event
  restart : Event

-- What the database holds, and the process.
pub record Process (table : AccountTable) : Type 0 where
  pub disk : table.Db
  pub state : State table

-- The abstract view: a map from PIDs to passwords.
abbrev pub Registry : Type 0
Registry = Str → Option Str

-- A registration, where there was one.
abbrev pub learn : Option (Str × Str) → Registry → Registry
learn none known k = known k
learn (some (pid, pw)) known k = if str_beq pid k then some pw else known k

abbrev pub learn_all : List (Option (Str × Str)) → Registry → Registry
learn_all [] known = known
learn_all (e ∷ es) known = learn_all es (learn e known)

module _ (table : AccountTable) (decoders : Decoders) (driver : Driver) (getenv : Env) where
  abbrev pub disk_of : Option table.Db → table.Db → table.Db
  disk_of none disk = disk
  disk_of (some db) disk = db

  abbrev pub with_disk : table.Db → State table → Process table
  with_disk disk s = record { disk = disk_of s.db disk; state = s }

  abbrev pub start : table.Db → Process table
  start disk = with_disk disk (boot table driver getenv disk)

  unfoldable pub advance : Event → Process table → Process table
  advance (request r) p = with_disk p.disk (handle_register table decoders r p.state).1
  advance restart p = start p.disk

  unfoldable pub advance_all : List Event → Process table → Process table
  unfolding advance
  advance_all [] p = p
  advance_all (e ∷ es) p = advance_all es (advance e p)

  -- The registration that an answer with status 200 promises.
  abbrev fields_of {ℓ} : {A : Type ℓ} → A ⊎ (Str × Str) → Option (Str × Str)
  fields_of (inl _) = none
  fields_of (inr (pid, pw)) = some (trim_space pid, trim_space pw)

  abbrev pub promised : Event → Process table → Option (Str × Str)
  promised restart p = none
  promised (request r) p =
      if nat_beq (handle_register table decoders r p.state).0.status 200
      then fields_of (posted table decoders r)
      else none

  abbrev pub promises : List Event → Process table → List (Option (Str × Str))
  promises [] p = []
  promises (e ∷ es) p = promised e p ∷ promises es (advance e p)

  -- What FFE_NEX_ACCOUNTS gives.
  abbrev pub seeded : Registry
  seeded k = get (seed_accounts_from_env getenv []) k

  -- A database that answers: it can be opened, CREATE TABLE IF NOT EXISTS keeps what there is, and
  -- the table can be read.
  pub record IsAvailable (laws : IsTable table) : Type 0 where
    pub uri : str_beq (env getenv (txt "FFE_POSTGRES_URI") []) [] ≡ false
    pub opens : driver.opens (env getenv (txt "FFE_POSTGRES_URI") []) ≡ true
    pub pings : driver.pings (env getenv (txt "FFE_POSTGRES_URI") []) ≡ true
    pub create_keeps :
        (db : table.Db) (k : Str) → laws.contents (table.create db) k ≡ laws.contents db k
    pub readable :
        (db : table.Db) → (rows : List (Option (Str × Str))) × (table.select db ≡ some rows)

  module _ (laws : IsTable table) (available : IsAvailable laws) where
    -- What is known after a start with this database.
    abbrev pub kept : table.Db → Registry
    kept disk k = over (laws.contents disk k) (seeded k)

    -- The process and the database both hold the registry.
    pub record Holds (p : Process table) (known : Registry) : Type 0 where
      pub connected : p.state.db ≡ some p.disk
      pub memory : (k : Str) → get p.state.accounts k ≡ known k
      pub table_too : (k : Str) → kept p.disk k ≡ known k

    open_available : (disk : table.Db) → open_postgres table driver getenv disk ≡ some disk
    unfolding open_postgres
    open_available disk =
        let a = available.uri in
        let b = available.opens in let c = available.pings in rw (a, open_postgres, b, c) refl

    with_disk-Holds :
        (disk d : table.Db) (s : State table) (known : Registry)
        → s.db ≡ some d
        → ((k : Str) → get s.accounts k ≡ known k)
        → ((k : Str) → kept d k ≡ known k)
        → Holds (with_disk disk s) known
    with_disk-Holds disk d s known e memory table_too =
        let same : disk_of s.db disk ≡ d = rw e refl in
        record {
          connected = e ∙ ap some (sym same);
          memory = memory;
          table_too = λ k. ap (λ x. kept x k) same ∙ table_too k;
        }

    kept-create : (disk : table.Db) (k : Str) → kept (table.create disk) k ≡ kept disk k
    kept-create disk k = ap (λ o. over o (seeded k)) (available.create_keeps disk k)

    pub start-Holds :
        (disk : table.Db) (known : Registry)
        → ((k : Str) → kept disk k ≡ known k)
        → Holds (start disk) known
    unfolding boot ensure_accounts_table get
    start-Holds disk known h =
        let opened = open_available disk in
        let (rows, selected) = available.readable (table.create disk) in
        with_disk-Holds disk (table.create disk) (boot table driver getenv disk) known
          (rw opened refl)
          (λ k. rw opened (
            lookup-load table k (table.create disk) rows (seed_accounts_from_env getenv []) selected
            ∙ ap (λ o. over o (seeded k)) (laws.select_contents (table.create disk) rows selected k)
            ∙ kept-create disk k
            ∙ h k))
          (λ k. kept-create disk k ∙ h k)

    promised_refused :
        (r : Request) (p : Process table)
        → nat_beq (handle_register table decoders r p.state).0.status 200 ≡ false
        → promised (request r) p ≡ none
    promised_refused r p refused = rw refused refl

    promised_stored :
        (r : Request) (p : Process table) {fields : Str × Str}
        → nat_beq (handle_register table decoders r p.state).0.status 200 ≡ true
        → posted table decoders r ≡ inr fields
        → promised (request r) p ≡ some (trim_space fields.0, trim_space fields.1)
    promised_stored r p good read = rw (good, read) refl

    -- Saved with a connection: the table took it.
    saved :
        (pid pw : Str) (db : table.Db) (o : Option table.Db)
        → save_account table pid pw (some db) ≡ some o
        → (db' : table.Db) × (o ≡ some db') × (table.upsert pid pw db ≡ some db')
    unfolding save_account
    saved pid pw db o e = elim (Option-cases (table.upsert pid pw db)) [
      | inl failed ↦ absurd (ground arith)
      | inr (db', done) ↦ (db', ground arith, done)
    ]

    kept_upsert :
        (pid pw : Str) (db db' : table.Db)
        → table.upsert pid pw db ≡ some db'
        → (k : Str) → kept db' k ≡ (if str_beq pid k then some pw else kept db k)
    kept_upsert pid pw db db' done k =
        ap (λ o. over o (seeded k)) (laws.contents_upsert pid pw db db' done k)
        ∙ elim (Bool-cases (str_beq pid k)) [ inl same ↦ rw same refl | inr other ↦ rw other refl ]

    request-Holds :
        (r : Request) (p : Process table) (known : Registry)
        → Holds p known
        → Holds (advance (request r) p) (learn (promised (request r) p) known)
    unfolding advance
    request-Holds r p known h =
        elim (Bool-cases (nat_beq (handle_register table decoders r p.state).0.status 200)) [
          | inr refused ↦
              let same =
                handle_register_refused table decoders r p.state
                  (λ e. false≢true (sym refused ∙ (nat_beq_iff _ 200).1 e)) in
              subst (λ o. Holds (advance (request r) p) (learn o known))
                (sym (promised_refused r p refused))
                (with_disk-Holds p.disk p.disk (handle_register table decoders r p.state).1 known
                  (ap (λ s. s.db) same ∙ h.connected)
                  (λ k. ap (λ s. get s.accounts k) same ∙ h.memory k) h.table_too)
          | inl good ↦
              let (fields, read, _, took, now) =
                handle_register_saved table decoders r p.state ((nat_beq_iff _ 200).0 good) in
              let pid = trim_space fields.0 in
              let pw = trim_space fields.1 in
              let (db', connected, done) =
                saved pid pw p.disk (handle_register table decoders r p.state).1.db
                  (ap (save_account table pid pw) (sym h.connected) ∙ took) in
              subst (λ o. Holds (advance (request r) p) (learn o known))
                (sym (promised_stored r p good read))
                (with_disk-Holds p.disk db' (handle_register table decoders r p.state).1
                  (learn (some (pid, pw)) known) connected
                  (λ k. now k ∙ ap (λ o. if str_beq pid k then some pw else o) (h.memory k))
                  (λ k.
                    kept_upsert pid pw p.disk db' done k
                    ∙ ap (λ o. if str_beq pid k then some pw else o) (h.table_too k)))
        ]

    advance_all-Holds :
        (es : List Event) (p : Process table) (known : Registry)
        → Holds p known
        → Holds (advance_all es p) (learn_all (promises es p) known)
    unfolding advance_all advance
    advance_all-Holds [] p known h = h
    advance_all-Holds (request r ∷ es) p known h =
        advance_all-Holds es (advance (request r) p) (learn (promised (request r) p) known)
          (request-Holds r p known h)
    advance_all-Holds (restart ∷ es) p known h =
        advance_all-Holds es (start p.disk) known (start-Holds p.disk known h.table_too)

    -- With a database that answers and keeps what is upserted, the process refines a map from PIDs to
    -- passwords that nothing is lost from. The map begins with the table's rows over those of
    -- FFE_NEX_ACCOUNTS, a registration that is answered with status 200 adds its trimmed fields, and
    -- restarts and all other requests leave it as it is. After any sequence of requests and restarts,
    -- the store gives what the map gives, and so do the table and FFE_NEX_ACCOUNTS.
    pub advance_all-learn_all :
        (disk : table.Db) (es : List Event) (k : Str)
        → (get (advance_all es (start disk)).state.accounts k
            ≡ learn_all (promises es (start disk)) (kept disk) k)
          × (kept (advance_all es (start disk)).disk k
              ≡ learn_all (promises es (start disk)) (kept disk) k)
    advance_all-learn_all disk es k =
        let h =
          advance_all-Holds es (start disk) (kept disk)
            (start-Holds disk (kept disk) (λ j. refl)) in
        (h.memory k, h.table_too k)
