-- ===== src/Accounts/Concurrent/Crash/Durable.antt =====
-- What a registration of server/register.go is worth while the process of server/main.go may die.
use mathlib.Core.Path.{subst}
use fbf_3ds_servers.Base.{
  ℕ, ◌≡◌, refl, sym, ap, ◌∙◌, inl, inr, Option, none, some, List, [], ◌∷◌, Str, Env, str_eq,
  nat_beq, nat_beq_iff, Bool-cases, arith,
}
use fbf_3ds_servers.Accounts.Store.{AccountTable, get}
use fbf_3ds_servers.Accounts.Register.{Request, Decoders}
use fbf_3ds_servers.Accounts.Restart.{IsTable}
use fbf_3ds_servers.Accounts.Boot.{Driver}
use fbf_3ds_servers.Accounts.Service.{disk_of, start, kept, IsAvailable, Holds, start-Holds}
use fbf_3ds_servers.Accounts.Concurrent.{Stage, received, saved, answered, proceed}
use fbf_3ds_servers.Accounts.Concurrent.Effects.{IsPost}
use fbf_3ds_servers.Accounts.Concurrent.Turns.{proceed-Turns}
use fbf_3ds_servers.Accounts.Concurrent.Origin.{Follows, proceed-Follows}
use fbf_3ds_servers.Accounts.Concurrent.Crash.Phases.{Phase, IsKept, own-Phase, other-Phase}
use fbf_3ds_servers.Accounts.Concurrent.Crash.{
  Moment, handler_turn, crash, World, cut_off, go_on, happen, happen_all, first_day, lived,
}

module _ (table : AccountTable) (laws : IsTable table) (decoders : Decoders) (driver : Driver)
    (getenv : Env) (available : IsAvailable table decoders driver getenv laws)
    (requests : ℕ → Request) (i : ℕ) (k pw : Str) (own : IsPost table decoders (requests i) k pw)
    (only : (j : ℕ) (pw' : Str) → IsPost table decoders (requests j) k pw' → i ≡ j) where
  -- What a start over this database gives for the PID.
  abbrev on_disk : table.Db → Option Str
  on_disk disk = kept table decoders driver getenv laws available disk k

  abbrev FollowsFate : ℕ → Option Stage → Type 0
  FollowsFate j none = Unit {0}
  FollowsFate j (some h) = Follows table laws decoders requests j h

  record Inv (w : World table decoders driver getenv) : Type 0 where
    connected : w.process.state.db ≡ some w.process.disk
    follows : (j : ℕ) → FollowsFate j (w.fates j)
    phase : Phase pw (w.fates i) (get w.process.state.accounts k) (on_disk w.process.disk)

  connection :
      (w : World table decoders driver getenv) (h : Stage)
      → w.process.state.db ≡ some w.process.disk
      → (db : table.Db) × ((proceed table decoders h w.process.state).1.db ≡ some db)
        × (disk_of table decoders driver getenv
              (proceed table decoders h w.process.state).1.db
              w.process.disk
            ≡ db)
  connection w h on =
      let (db, on') =
        (proceed-Turns table laws decoders k h w.process.state (w.process.disk, on)).0 in
      (db, on', rw on' refl)

  turn-Inv :
      (j : ℕ) (w : World table decoders driver getenv) (h : Stage)
      → Inv w
      → w.fates j ≡ some h
      → Inv (go_on table decoders driver getenv j (some h) w)
  turn-Inv j w h inv at =
      let s = w.process.state in
      let (db, on, disk) = connection w h inv.connected in
      let before = subst (FollowsFate j) at (inv.follows j) in
      let behind = proceed-Follows table laws decoders requests j h s before in
      record {
        connected = on ∙ ap some (sym disk);
        follows = λ n. elim (Bool-cases (nat_beq j n)) [
          | inl same ↦ rw same (
              subst (λ x. FollowsFate x (some (proceed table decoders h s).0))
                ((nat_beq_iff j n).0 same) behind)
          | inr other ↦ rw other (inv.follows n)
        ];
        phase = elim (Bool-cases (nat_beq j i)) [
          | inl same ↦
              let one : j ≡ i = (nat_beq_iff j i).0 same in
              rw (same, disk)
                (own-Phase table laws decoders driver getenv available requests i k pw own only h s
                  w.process.disk db inv.connected on
                  (subst (λ n. Follows table laws decoders requests n h) one before)
                  (subst (λ f. Phase pw f (get s.accounts k) (on_disk w.process.disk))
                    (sym (ap w.fates one) ∙ at) inv.phase))
          | inr other ↦
              rw (other, disk)
                (other-Phase table laws decoders driver getenv available requests i k pw own only j
                  (w.fates i) h s (proceed table decoders h s).0 (proceed table decoders h s).1
                  w.process.disk db (λ e. absurd (ground arith)) inv.connected on
                  (proceed-Turns table laws decoders k h s (w.process.disk, inv.connected)).1 before
                  behind inv.phase)
        ];
      }

  started :
      (disk : table.Db)
      → Holds table decoders driver getenv laws available
          (start table decoders driver getenv disk)
          (kept table decoders driver getenv laws available disk)
  started disk =
      start-Holds table decoders driver getenv laws available disk
        (kept table decoders driver getenv laws available disk) (λ j. refl)

  -- A start gives what the disk gave.
  cut_off-Phase :
      (fate : Option Stage) (m m' d d' : Option Str)
      → m' ≡ d
      → d' ≡ d
      → Phase pw fate m d
      → Phase pw (cut_off fate) m' d'
  cut_off-Phase none m m' d d' e e' h = (e ∙ h.1, e' ∙ h.1)
  cut_off-Phase (some (received r)) m m' d d' e e' h = tt
  cut_off-Phase (some (saved pid pw')) m m' d d' e e' h = (e ∙ h, e' ∙ h)
  cut_off-Phase (some (answered resp)) m m' d d' e e' h = λ ok. (e ∙ (h ok).1, e' ∙ (h ok).1)

  cut_off-Follows :
      (j : ℕ) (fate : Option Stage) → FollowsFate j fate → FollowsFate j (cut_off fate)
  cut_off-Follows j none h = tt
  cut_off-Follows j (some (received r)) h = h
  cut_off-Follows j (some (saved pid pw')) h = tt
  cut_off-Follows j (some (answered resp)) h = tt

  happen-Inv :
      (m : Moment) (w : World table decoders driver getenv)
      → Inv w
      → Inv (happen table decoders driver getenv m w)
  unfolding happen
  happen-Inv crash w inv =
      let h = started w.process.disk in
      record {
        connected = h.connected;
        follows = λ j. cut_off-Follows j (w.fates j) (inv.follows j);
        phase = cut_off-Phase (w.fates i) _ _ _ _ (h.memory k) (h.table_too k) inv.phase;
      }
  happen-Inv (handler_turn j) w inv =
      elim (w.fates j) as (λ f. w.fates j ≡ f → Inv (go_on table decoders driver getenv j f w)) [
        | none ↦ λ _. inv
        | some h ↦ turn-Inv j w h inv
      ]
        refl

  happen_all-Inv :
      (ms : List Moment) (w : World table decoders driver getenv)
      → Inv w
      → Inv (happen_all table decoders driver getenv ms w)
  unfolding happen_all
  happen_all-Inv [] w inv = inv
  happen_all-Inv (m ∷ ms) w inv =
      happen_all-Inv ms (happen table decoders driver getenv m w) (happen-Inv m w inv)

  first_day-Inv : (disk : table.Db) → Inv (first_day table decoders driver getenv requests disk)
  first_day-Inv disk = record {
    connected = (started disk).connected;
    follows = λ j. refl;
    phase = tt;
  }

  kept-Phase :
      (fate : Option Stage) (m d : Option Str)
      → IsKept fate
      → Phase pw fate m d
      → (m ≡ some pw) × (d ≡ some pw)
  kept-Phase none m d safe h = h
  kept-Phase (some (answered resp)) m d safe h = h safe
  kept-Phase (some (received r)) m d unsafe h = absurd unsafe
  kept-Phase (some (saved pid pw')) m d unsafe h = absurd unsafe

  -- With a database that answers and keeps what is upserted: let one request pass the checks with a
  -- PID, and no other request with this PID. However the handlers of all requests are interleaved,
  -- and however often and wherever the process dies and starts again, once this request has been
  -- answered with status 200, or its handler was cut off with its row in the table, the store gives
  -- its password for the PID, and so do the table and FFE_NEX_ACCOUNTS.
  pub happen_all-IsKept :
      (disk : table.Db) (ms : List Moment)
      → IsKept ((lived table decoders driver getenv requests disk ms).fates i)
      → (get (lived table decoders driver getenv requests disk ms).process.state.accounts k
          ≡ some pw)
        × (kept table decoders driver getenv laws available
              (lived table decoders driver getenv requests disk ms).process.disk
              k
            ≡ some pw)
  happen_all-IsKept disk ms safe =
      let w = lived table decoders driver getenv requests disk ms in
      kept-Phase (w.fates i) (get w.process.state.accounts k) (on_disk w.process.disk) safe
        (happen_all-Inv ms (first_day table decoders driver getenv requests disk)
          (first_day-Inv disk)).phase
