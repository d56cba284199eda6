-- ===== src/Accounts/Concurrent/Turns.antt =====
-- What a turn of a handler of server/register.go changes for one PID: in the store, in the table,
-- and in whether the handler is between its two changes.
use fbf_3ds_servers.Base.{
  ◌≡◌, refl, sym, ap, ◌∙◌, inl, inr, Option, none, some, Str, str_beq, str_beq_iff, str_eq, false,
  Bool-cases, Option-cases, if◌then◌else◌, lookup-insert, arith,
}
use fbf_3ds_servers.Accounts.Store.{AccountTable, get, set, save_account}
use fbf_3ds_servers.Accounts.Register.{Request, Decoders, State}
use fbf_3ds_servers.Accounts.Restart.{IsTable}
use fbf_3ds_servers.Accounts.Concurrent.{
  Stage, received, saved, answered, is_between, receive, proceed,
}
use fbf_3ds_servers.Accounts.Concurrent.Effects.{receive_cases}

module _ (table : AccountTable) (laws : IsTable table) where
  -- What the table has for a PID; nothing without a connection.
  abbrev pub in_table : Option table.Db → Str → Option Str
  in_table none k = none
  in_table (some db) k = laws.contents db k

  pub in_table-save_account :
      (pid pw k : Str) (db : table.Db) (o : Option table.Db)
      → save_account table pid pw (some db) ≡ some o
      → (db' : table.Db) × (o ≡ some db')
        × (in_table o k ≡ (if str_beq pid k then some pw else laws.contents db k))
  unfolding save_account
  in_table-save_account pid pw k db o e = elim (Option-cases (table.upsert pid pw db)) [
    | inl failed ↦ absurd (ground arith)
    | inr (db', done) ↦
        let same : o ≡ some db' = ground arith in
        (db', same, rw same (laws.contents_upsert pid pw db db' done k))
  ]

  module _ (decoders : Decoders) (k : Str) where
    -- A turn leaves this PID alone, takes a handler between its two changes for it, or out again.
    pub data Effect (h : Stage) (s : State table) (h' : Stage) (s' : State table) : Type 0 where
      quiet :
          is_between k h ≡ false
          → is_between k h' ≡ false
          → get s'.accounts k ≡ get s.accounts k
          → in_table s'.db k ≡ in_table s.db k
          → Effect h s h' s'
      opens :
          (pw : Str)
          → is_between k h ≡ false
          → h' ≡ saved k pw
          → get s'.accounts k ≡ get s.accounts k
          → in_table s'.db k ≡ some pw
          → Effect h s h' s'
      closes :
          (pw : Str)
          → h ≡ saved k pw
          → is_between k h' ≡ false
          → get s'.accounts k ≡ some pw
          → in_table s'.db k ≡ in_table s.db k
          → Effect h s h' s'

    abbrev pub Connected : State table → Type 0
    Connected s = (db : table.Db) × (s.db ≡ some db)

    abbrev pub Turns : Stage → State table → Stage × State table → Type 0
    Turns h s out = Connected out.1 × Effect h s out.0 out.1

    receive-Turns :
        (r : Request) (s : State table)
        → Connected s
        → Turns (received r) s (receive table decoders r s)
    receive-Turns r s (db, on) = elim (receive_cases table decoders r s) [
      | inl (resp, e) ↦ rw e ((db, on), quiet refl refl refl refl)
      | inr (pid, pw, o, _, took, e) ↦
          let (db', on', now) =
            in_table-save_account pid pw k db o (ap (save_account table pid pw) (sym on) ∙ took) in
          rw e (
            (db', on'),
            elim (Bool-cases (str_beq pid k)) [
              | inl same ↦
                  opens pw refl (ap (λ x. saved x pw) ((str_beq_iff pid k).0 same)) refl
                    (now ∙ rw same refl)
              | inr other ↦ quiet refl other refl (now ∙ rw (other, on) refl)
            ],
          )
    ]

    pub proceed-Turns :
        (h : Stage) (s : State table) → Connected s → Turns h s (proceed table decoders h s)
    unfolding proceed get set
    proceed-Turns (received r) s on = receive-Turns r s on
    proceed-Turns (answered resp) s on = (on, quiet refl refl refl refl)
    proceed-Turns (saved pid pw) s on = (
      on,
      elim (Bool-cases (str_beq pid k)) [
        | inl same ↦
            closes pw (ap (λ x. saved x pw) ((str_beq_iff pid k).0 same)) refl
              (lookup-insert pid k pw s.accounts ∙ rw same refl) refl
        | inr other ↦ quiet other refl (lookup-insert pid k pw s.accounts ∙ rw other refl) refl
      ],
    )
