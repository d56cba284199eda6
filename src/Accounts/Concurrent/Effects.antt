-- ===== src/Accounts/Concurrent/Effects.antt =====
-- What one turn of a handler of server/register.go changes.
use fbf_3ds_servers.Base.{
  ◌≡◌, refl, ◌⊎◌, inl, inr, Option, none, some, true, Str, txt, str_beq, str_eq, Bool-cases,
  Option-cases, trim_space,
}
use fbf_3ds_servers.Accounts.Store.{AccountTable, save_account}
use fbf_3ds_servers.Accounts.Register.{
  Request, Response, Decoders, State, http_error, posted, refused, store, handle_register,
}
use fbf_3ds_servers.Accounts.Registered.{posted_cases}
use fbf_3ds_servers.Accounts.Concurrent.{Stage, saved, answered, check_and_save, receive, proceed}

module _ (table : AccountTable) (decoders : Decoders) where
  -- The fields of a request that passes the checks.
  pub record IsPost (r : Request) (pid pw : Str) : Type 0 where
    pub method : str_beq r.method (txt "POST") ≡ true
    pub fields : Str × Str
    pub read : posted table decoders r ≡ inr fields
    pub pid_field : trim_space fields.0 ≡ pid
    pub pw_field : trim_space fields.1 ≡ pw
    pub passed : refused table decoders pid pw ≡ none

  -- A request is answered with nothing changed, or its fields are in the table.
  abbrev Receives : Request → State table → Stage × State table → Type 0
  Receives r s out =
      ((resp : Response) × (out ≡ (answered resp, s)))
      ⊎ ((pid : Str) × (pw : Str) × (db' : Option table.Db) × IsPost r pid pw
          × (save_account table pid pw s.db ≡ some db')
          × (out ≡ (saved pid pw, record s { db = db' })))

  check_and_save-Receives :
      (r : Request) (fields : Str × Str) (s : State table)
      → str_beq r.method (txt "POST") ≡ true
      → posted table decoders r ≡ inr fields
      → Receives r s (check_and_save table decoders (trim_space fields.0) (trim_space fields.1) s)
  unfolding check_and_save
  check_and_save-Receives r fields s post read =
      let pid = trim_space fields.0 in
      let pw = trim_space fields.1 in
      elim (Option-cases (refused table decoders pid pw)) [
        | inr (resp, bad) ↦ inl (resp, rw (bad, check_and_save))
        | inl passed ↦ elim (Option-cases (save_account table pid pw s.db)) [
          | inl failed ↦
              inl (http_error (txt "server error") 500, rw (passed, check_and_save, failed))
          | inr (db', took) ↦ inr (
            pid,
            pw,
            db',
            record {
              method = post;
              fields = fields;
              read = read;
              pid_field = refl;
              pw_field = refl;
              passed = passed;
            },
            took,
            rw (passed, check_and_save, took),
          )
        ]
      ]

  pub receive_cases : (r : Request) (s : State table) → Receives r s (receive table decoders r s)
  unfolding receive
  receive_cases r s = elim (Bool-cases (str_beq r.method (txt "POST"))) [
    | inr other ↦ inl (http_error (txt "POST only") 405, rw (receive, other))
    | inl post ↦ elim (posted_cases table decoders r) [
      | inl (resp, e, _) ↦ inl (resp, rw (receive, post, e))
      | inr (fields, e) ↦ rw (receive, post, e) (check_and_save-Receives r fields s post e)
    ]
  ]

  check_and_save-store :
      (pid pw : Str) (s : State table)
      → proceed table decoders
          (check_and_save table decoders pid pw s).0
          (check_and_save table decoders pid pw s).1
        ≡ (answered (store table decoders pid pw s).0, (store table decoders pid pw s).1)
  unfolding check_and_save store proceed
  check_and_save-store pid pw s = elim (Option-cases (refused table decoders pid pw)) [
    | inr (resp, bad) ↦ rw (check_and_save, store, bad, proceed)
    | inl passed ↦ elim (Option-cases (save_account table pid pw s.db)) [
      | inl failed ↦ rw (check_and_save, store, passed, failed, proceed)
      | inr (db', took) ↦ rw (check_and_save, store, passed, took, proceed)
    ]
  ]

  pub receive-handle_register :
      (r : Request) (s : State table)
      → proceed table decoders (receive table decoders r s).0 (receive table decoders r s).1
        ≡ (answered (handle_register table decoders r s).0, (handle_register table decoders r s).1)
  unfolding receive handle_register proceed
  receive-handle_register r s = elim (Bool-cases (str_beq r.method (txt "POST"))) [
    | inr other ↦ rw (receive, handle_register, other, proceed)
    | inl post ↦ elim (posted_cases table decoders r) [
      | inl (resp, e, _) ↦ rw (receive, handle_register, post, e, proceed)
      | inr (fields, e) ↦
          rw (receive, handle_register, post, e)
            (check_and_save-store (trim_space fields.0) (trim_space fields.1) s)
    ]
  ]
