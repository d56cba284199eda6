-- ===== src/Accounts/Registered.antt =====
-- What a registration changes.
use mathlib.Core.Path.{subst}
use fbf_3ds_servers.Base.{
  ℕ, ◌≤◌, ◌≡◌, ◌≢◌, sym, ap, ◌∙◌, ◌⊎◌, inl, inr, not, ◌||◌, Option, none, some, Str, txt, take,
  contains, str_beq, str_eq, nat_beq, ltb, length, lookup, lookup-insert, trim_space, parse_uint,
  if◌then◌else◌, Bool-cases, Option-cases, arith,
}
use fbf_3ds_servers.Accounts.Store.{AccountTable, get, set, save_account}
use fbf_3ds_servers.Accounts.Register.{
  Request, Response, Decoders, http_error, registered, State, posted, refused, store,
  handle_register,
}

-- A PID that is a number of 64 bits, and a password of 1 to 64 bytes.
pub record IsAccepted (pid pw : Str) : Type 0 where
  pub value : ℕ
  pub parsed : parse_uint 64 pid ≡ some value
  pub not_empty : 1 ≤ length pw
  pub short : length pw ≤ 64

module _ (table : AccountTable) (decoders : Decoders) where
  refused_cases :
      (pid pw : Str)
      → ((resp : Response) × (refused table decoders pid pw ≡ some resp) × (resp.status ≢ 200))
        ⊎ ((refused table decoders pid pw ≡ none) × IsAccepted pid pw)
  unfolding refused
  refused_cases pid pw = elim (Option-cases (parse_uint 64 pid)) [
    | inl bad ↦ inl (http_error (txt "invalid pid") 400, rw (bad, refused), omega arith)
    | inr (n, good) ↦ elim (Bool-cases (nat_beq (length pw) 0 || ltb 64 (length pw))) [
      | inl long ↦
          inl (http_error (txt "invalid password") 400, rw (good, refused, long), omega arith)
      | inr fits ↦ inr (
        rw (good, refused, fits),
        record { value = n; parsed = good; not_empty = ground arith; short = ground arith },
      )
    ]
  ]

  pub posted_cases :
      (r : Request)
      → ((resp : Response) × (posted table decoders r ≡ inl resp) × (resp.status ≢ 200))
        ⊎ ((fields : Str × Str) × (posted table decoders r ≡ inr fields))
  unfolding posted
  posted_cases r = elim (Bool-cases (contains r.content_type (txt "application/json"))) [
    | inl json ↦ elim (Option-cases (decoders.decode_json (take 4096 r.body))) [
      | inl bad ↦ inl (http_error (txt "bad json") 400, rw (json, bad, posted), omega arith)
      | inr (fields, good) ↦ inr (fields, rw (json, good, posted))
    ]
    | inr other ↦ elim (Option-cases (decoders.parse_form 4096 r)) [
      | inl bad ↦ inl (http_error (txt "bad form") 400, rw (other, bad, posted), omega arith)
      | inr (form, good) ↦ inr ((form (txt "pid"), form (txt "password")), rw (other, good, posted))
    ]
  ]

  -- The two ways a request can end: refused with nothing changed, or stored.
  abbrev Ends : Str → Str → State table → Response × State table → Type 0
  Ends pid pw s out =
      ((out.0.status ≢ 200) × (out.1 ≡ s))
      ⊎ ((db' : Option table.Db) × IsAccepted pid pw
          × (save_account table pid pw s.db ≡ some db')
          × (out ≡ (registered, record { accounts = set pid pw s.accounts; db = db' })))

  store-Ends : (pid pw : Str) (s : State table) → Ends pid pw s (store table decoders pid pw s)
  unfolding store
  store-Ends pid pw s = elim (refused_cases pid pw) [
    | inl (resp, e, bad) ↦ inl (rw (e, store) bad, rw (e, store))
    | inr (e, good) ↦ elim (Option-cases (save_account table pid pw s.db)) [
      | inl failed ↦ inl (rw (e, store, failed) (omega arith), rw (e, store, failed))
      | inr (db', saved) ↦ inr (db', good, saved, rw (e, store, saved))
    ]
  ]

  handle_register_cases :
      (r : Request) (s : State table)
      → (((handle_register table decoders r s).0.status ≢ 200)
          × ((handle_register table decoders r s).1 ≡ s))
        ⊎ ((fields : Str × Str) × (posted table decoders r ≡ inr fields)
            × Ends
                (trim_space fields.0)
                (trim_space fields.1)
                s
                (handle_register table decoders r s))
  unfolding handle_register
  handle_register_cases r s = elim (Bool-cases (not (str_beq r.method (txt "POST")))) [
    | inl other ↦ inl (rw other (omega arith), rw other)
    | inr post ↦ elim (posted_cases r) [
      | inl (resp, e, bad) ↦ inl (rw (post, e, handle_register) bad, rw (post, e, handle_register))
      | inr (fields, e) ↦ inr (
        fields,
        e,
        rw (post, e, handle_register) (store-Ends (trim_space fields.0) (trim_space fields.1) s),
      )
    ]
  ]

  -- Whatever is not answered with status 200 leaves the store and the table as they were.
  pub handle_register_refused :
      (r : Request) (s : State table)
      → (handle_register table decoders r s).0.status ≢ 200
      → (handle_register table decoders r s).1 ≡ s
  handle_register_refused r s bad = elim (handle_register_cases r s) [
    | inl (_, same) ↦ same
    | inr (fields, _, inl (_, same)) ↦ same
    | inr (fields, _, inr (db', _, _, e)) ↦ absurd (bad (ap (λ out. out.0.status) e))
  ]

  -- A 200 in the words of saveAccount.
  pub handle_register_saved :
      (r : Request) (s : State table)
      → (handle_register table decoders r s).0.status ≡ 200
      → (fields : Str × Str) × (posted table decoders r ≡ inr fields)
        × IsAccepted (trim_space fields.0) (trim_space fields.1)
        × (save_account table (trim_space fields.0) (trim_space fields.1) s.db
            ≡ some (handle_register table decoders r s).1.db)
        × ((pid : Str)
            → get (handle_register table decoders r s).1.accounts pid ≡ (
                if str_beq (trim_space fields.0) pid
                then some (trim_space fields.1)
                else get s.accounts pid))
  unfolding get set
  handle_register_saved r s good = elim (handle_register_cases r s) [
    | inl (bad, _) ↦ absurd (bad good)
    | inr (fields, _, inl (bad, _)) ↦ absurd (bad good)
    | inr (fields, read, inr (db', ok, saved, e)) ↦ (
      fields,
      read,
      ok,
      saved ∙ ap (λ out. some out.1.db) (sym e),
      λ pid.
          ap (λ out. lookup pid out.1.accounts) e
          ∙ lookup-insert (trim_space fields.0) pid (trim_space fields.1) s.accounts,
    )
  ]

  -- The same for the fields that were posted.
  pub stored_fields :
      (r : Request) (s : State table) (fields : Str × Str)
      → (handle_register table decoders r s).0.status ≡ 200
      → posted table decoders r ≡ inr fields
      → (save_account table (trim_space fields.0) (trim_space fields.1) s.db
          ≡ some (handle_register table decoders r s).1.db)
        × ((pid : Str)
            → get (handle_register table decoders r s).1.accounts pid ≡ (
                if str_beq (trim_space fields.0) pid
                then some (trim_space fields.1)
                else get s.accounts pid))
  stored_fields r s fields ok read =
      let (fields', read', _, saved, found) = handle_register_saved r s ok in
      let same : fields' ≡ fields = cc in
      (
        subst
            (λ f.
              save_account table (trim_space f.0) (trim_space f.1) s.db
              ≡ some (handle_register table decoders r s).1.db)
            same saved,
        subst
            (λ f.
              (pid : Str)
              → get (handle_register table decoders r s).1.accounts pid ≡ (
                  if str_beq (trim_space f.0) pid
                  then some (trim_space f.1)
                  else get s.accounts pid))
            same found,
      )

  -- What a registration does to the table: with a database, the table takes the row; without one
  -- there is none, and the registration is kept in memory only.
  abbrev pub Takes : Str → Str → Option table.Db → Option table.Db → Type 0
  Takes pid pw none now = now ≡ none
  Takes pid pw (some db) now =
      (db' : table.Db) × (table.upsert pid pw db ≡ some db') × (now ≡ some db')

  save_account-Takes :
      (pid pw : Str) (before : Option table.Db) {now : Option table.Db}
      → save_account table pid pw before ≡ some now
      → Takes pid pw before now
  unfolding save_account
  save_account-Takes pid pw none e = cc
  save_account-Takes pid pw (some db) e = elim (Option-cases (table.upsert pid pw db)) [
    | inl failed ↦ absurd (ground arith)
    | inr (db', done) ↦ (db', done, ground arith)
  ]

  -- A request answered with status 200 was read, and its trimmed fields are a PID of 64 bits and a
  -- password of 1 to 64 bytes. With a database, the table took them; without one, there is none
  -- afterwards either. The store now gives this password for this PID and what it gave before for
  -- every other.
  pub handle_register_stored :
      (r : Request) (s : State table)
      → (handle_register table decoders r s).0.status ≡ 200
      → (fields : Str × Str) × (posted table decoders r ≡ inr fields)
        × IsAccepted (trim_space fields.0) (trim_space fields.1)
        × Takes
            (trim_space fields.0)
            (trim_space fields.1)
            s.db
            (handle_register table decoders r s).1.db
        × ((pid : Str)
            → get (handle_register table decoders r s).1.accounts pid ≡ (
                if str_beq (trim_space fields.0) pid
                then some (trim_space fields.1)
                else get s.accounts pid))
  handle_register_stored r s good =
      let (fields, read, accepted, took, now) = handle_register_saved r s good in
      (
        fields,
        read,
        accepted,
        save_account-Takes (trim_space fields.0) (trim_space fields.1) s.db took,
        now,
      )
