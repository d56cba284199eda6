-- ===== src/Accounts/Concurrent/Crash/Phases.antt =====
-- What a turn of a handler of server/register.go leaves of a registration that is the only one of
-- its PID.
use mathlib.Core.Path.{subst}
use fbf_3ds_servers.Base.{
  ℕ, ◌≡◌, ◌≢◌, refl, sym, ap, ◌∙◌, ◌⊎◌, inl, inr, Option, none, some, Str, txt, Env, str_beq_iff,
  str_eq, beq_refl, lookup-insert, Option-cases, trim_space, arith,
}
use fbf_3ds_servers.Accounts.Store.{AccountTable, get, set, save_account}
use fbf_3ds_servers.Accounts.Register.{Request, Decoders, State, http_error, refused}
use fbf_3ds_servers.Accounts.Restart.{IsTable, over}
use fbf_3ds_servers.Accounts.Boot.{Driver}
use fbf_3ds_servers.Accounts.Service.{seeded, kept, IsAvailable}
use fbf_3ds_servers.Accounts.Concurrent.{
  Stage, received, saved, answered, check_and_save, receive, proceed,
}
use fbf_3ds_servers.Accounts.Concurrent.Effects.{IsPost}
use fbf_3ds_servers.Accounts.Concurrent.Turns.{
  in_table, in_table-save_account, Effect, quiet, opens, closes,
}
use fbf_3ds_servers.Accounts.Concurrent.Origin.{Follows}

-- What a registration with this password is worth where its handler stands: what the store gives,
-- and what a start would give.
abbrev pub Phase : Str → Option Stage → Option Str → Option Str → Type 0
Phase pw none m d = (m ≡ some pw) × (d ≡ some pw)
Phase pw (some (received _)) m d = Unit {0}
Phase pw (some (saved _ _)) m d = d ≡ some pw
Phase pw (some (answered resp)) m d = resp.status ≡ 200 → (m ≡ some pw) × (d ≡ some pw)

-- Answered with status 200, or cut off between its change of the table and its answer.
abbrev pub IsKept : Option Stage → Type 0
IsKept none = Unit {0}
IsKept (some (answered resp)) = resp.status ≡ 200
IsKept (some _) = ⊥

module _ (table : AccountTable) (decoders : Decoders) where
  -- A request has one PID and one password.
  IsPost-unique :
      (r : Request) (k k' pw pw' : Str)
      → IsPost table decoders r k pw
      → IsPost table decoders r k' pw'
      → (k ≡ k') × (pw ≡ pw')
  IsPost-unique r k k' pw pw' p q =
      let same : p.fields ≡ q.fields = cc (p.read, q.read) in
      (
        sym p.pid_field ∙ ap (λ f. trim_space f.0) same ∙ q.pid_field,
        sym p.pw_field ∙ ap (λ f. trim_space f.1) same ∙ q.pw_field,
      )

  -- Fields that pass the checks are in the table, or nothing is changed and they are refused.
  abbrev Saves : Str → Str → State table → Stage × State table → Type 0
  Saves k pw s out =
      ((o : Option table.Db) × (save_account table k pw s.db ≡ some o)
        × (out ≡ (saved k pw, record s { db = o })))
      ⊎ (out ≡ (answered (http_error (txt "server error") 500), s))

  save_own :
      (k pw : Str) (s : State table)
      → refused table decoders k pw ≡ none
      → Saves k pw s (check_and_save table decoders k pw s)
  unfolding check_and_save
  save_own k pw s passed = elim (Option-cases (save_account table k pw s.db)) [
    | inl failed ↦ inr (rw (passed, check_and_save, failed))
    | inr (o, took) ↦ inl (o, took, rw (passed, check_and_save, took))
  ]

  receive_own :
      (r : Request) (k pw : Str) (s : State table)
      → IsPost table decoders r k pw
      → Saves k pw s (receive table decoders r s)
  unfolding receive
  receive_own r k pw s p =
      rw (receive, p.method, p.read, p.pid_field, p.pw_field) (save_own k pw s p.passed)

module _ (table : AccountTable) (laws : IsTable table) (decoders : Decoders) (driver : Driver)
    (getenv : Env) (available : IsAvailable table decoders driver getenv laws)
    (requests : ℕ → Request) (i : ℕ) (k pw : Str) (own : IsPost table decoders (requests i) k pw)
    (only : (j : ℕ) (pw' : Str) → IsPost table decoders (requests j) k pw' → i ≡ j) where
  -- What a start over this database gives for the PID.
  abbrev on_disk : table.Db → Option Str
  on_disk disk = kept table decoders driver getenv laws available disk k

  -- Between the view of the connection and that of the disk.
  on_disk_lem :
      (o : Option table.Db) (disk : table.Db)
      → o ≡ some disk
      → on_disk disk ≡ over (in_table table laws o k) (seeded table decoders driver getenv k)
  on_disk_lem o disk e = rw e refl

  -- A turn of the registration's own handler.
  pub own-Phase :
      (h : Stage) (s : State table) (db db' : table.Db)
      → s.db ≡ some db
      → (proceed table decoders h s).1.db ≡ some db'
      → Follows table laws decoders requests i h
      → Phase pw (some h) (get s.accounts k) (on_disk db)
      → Phase pw
          (some (proceed table decoders h s).0)
          (get (proceed table decoders h s).1.accounts k)
          (on_disk db')
  unfolding proceed get set
  own-Phase (received r) s db db' on on' follows phase =
      elim (receive_own table decoders r k pw s
        (subst (λ q. IsPost table decoders q k pw) (sym follows) own)) [
          | inr e ↦ rw e (λ ok. absurd (omega arith))
          | inl (o, took, e) ↦
              let (db2, _, now) =
                in_table-save_account table laws k pw k db o
                  (ap (save_account table k pw) (sym on) ∙ took) in
              rw e (
                on_disk_lem o db' (sym (ap (λ x. x.1.db) e) ∙ on')
                ∙ ap (λ x. over x (seeded table decoders driver getenv k)) now
                ∙ rw (beq_refl k) refl)
        ]
  own-Phase (saved pid pw') s db db' on on' follows phase =
      let (same, same') = IsPost-unique table decoders (requests i) k pid pw pw' own follows in
      let here = (str_beq_iff pid k).1 (sym same) in
      let disk : db' ≡ db = cc in
      λ _. (
        lookup-insert pid k pw' s.accounts ∙ rw here (ap some (sym same')),
        ap on_disk disk ∙ phase,
      )
  own-Phase (answered resp) s db db' on on' follows phase =
      let disk : db' ≡ db = cc in λ ok. ((phase ok).0, ap on_disk disk ∙ (phase ok).1)

  -- A turn of another handler.
  pub other-Phase :
      (j : ℕ) (fate : Option Stage) (h : Stage) (s : State table) (h' : Stage) (s' : State table)
      (db db' : table.Db)
      → i ≢ j
      → s.db ≡ some db
      → s'.db ≡ some db'
      → Effect table laws decoders k h s h' s'
      → Follows table laws decoders requests j h
      → Follows table laws decoders requests j h'
      → Phase pw fate (get s.accounts k) (on_disk db)
      → Phase pw fate (get s'.accounts k) (on_disk db')
  other-Phase j fate h s h' s' db db' other on on' (quiet _ _ same same') _ _ phase = rw same (
      subst (Phase pw fate (get s.accounts k))
        (on_disk_lem s.db db on
          ∙ ap (λ x. over x (seeded table decoders driver getenv k)) (sym same')
          ∙ sym (on_disk_lem s'.db db' on'))
        phase)
  other-Phase j fate h s h' s' db db' other on on' (opens pw' _ at _ _) _ follows phase =
      absurd (other (only j pw' (subst (Follows table laws decoders requests j) at follows)))
  other-Phase j fate h s h' s' db db' other on on' (closes pw' at _ _ _) follows _ phase =
      absurd (other (only j pw' (subst (Follows table laws decoders requests j) at follows)))
