-- ===== src/Accounts/Concurrent/Origin.antt =====
-- Where the passwords come from, while registrations of server/register.go run at the same time.
use mathlib.Core.Path.{subst}
use fbf_3ds_servers.Base.{
  ℕ, ◌≡◌, refl, ◌⊎◌, inl, inr, Option, some, List, [], ◌∷◌, Str, str_eq, nat_beq, nat_beq_iff,
  Bool-cases,
}
use fbf_3ds_servers.Accounts.Store.{AccountTable, get}
use fbf_3ds_servers.Accounts.Register.{Request, Decoders, State}
use fbf_3ds_servers.Accounts.Restart.{IsTable}
use fbf_3ds_servers.Accounts.Concurrent.{
  Stage, received, saved, answered, proceed, Serving, at_arrival, turn, turns,
}
use fbf_3ds_servers.Accounts.Concurrent.Effects.{IsPost, receive_cases}
use fbf_3ds_servers.Accounts.Concurrent.Turns.{
  in_table, Effect, quiet, opens, closes, proceed-Turns,
}

module _ (table : AccountTable) (laws : IsTable table) (decoders : Decoders) where
  module _ (requests : ℕ → Request) where
    -- A handler has its own request, or what was posted with it.
    abbrev pub Follows : ℕ → Stage → Type 0
    Follows i (received r) = r ≡ requests i
    Follows i (saved pid pw) = IsPost table decoders (requests i) pid pw
    Follows i (answered _) = Unit {0}

    -- A password is the one from before, or was posted for this PID with one of the requests.
    abbrev pub ComesFrom : Str → Option Str → Option Str → Type 0
    ComesFrom k before now =
        (now ≡ before)
        ⊎ ((n : ℕ) × (pw : Str) × IsPost table decoders (requests n) k pw × (now ≡ some pw))

    pub proceed-Follows :
        (i : ℕ) (h : Stage) (s : State table)
        → Follows i h
        → Follows i (proceed table decoders h s).0
    unfolding proceed
    proceed-Follows i (received r) s own = elim (receive_cases table decoders r s) [
      | inl (resp, e) ↦ rw e tt
      | inr (pid, pw, o, post, _, e) ↦ rw e (subst (λ q. IsPost table decoders q pid pw) own post)
    ]
    proceed-Follows i (saved pid pw) s own = tt
    proceed-Follows i (answered resp) s own = tt

    record Inv (before : State table) (v : Serving table decoders) : Type 0 where
      follows : (i : ℕ) → Follows i (v.handlers i)
      db : table.Db
      connected : v.state.db ≡ some db
      memory : (k : Str) → ComesFrom k (get before.accounts k) (get v.state.accounts k)
      table_too :
          (k : Str)
          → ComesFrom k (in_table table laws before.db k) (in_table table laws v.state.db k)

    -- What a turn does to one PID keeps both.
    kept :
        (i : ℕ) (k : Str) (m t : Option Str) (h : Stage) (s : State table) (h' : Stage)
        (s' : State table)
        → Effect table laws decoders k h s h' s'
        → Follows i h
        → Follows i h'
        → ComesFrom k m (get s.accounts k)
        → ComesFrom k t (in_table table laws s.db k)
        → ComesFrom k m (get s'.accounts k) × ComesFrom k t (in_table table laws s'.db k)
    kept i k m t h s h' s' (quiet _ _ same same') _ _ x y = (rw same x, rw same' y)
    kept i k m t h s h' s' (opens pw _ at same now) _ own x y =
        (rw same x, inr (i, pw, subst (Follows i) at own, now))
    kept i k m t h s h' s' (closes pw at _ now same) own _ x y =
        (inr (i, pw, subst (Follows i) at own, now), rw same y)

    turn-Follows :
        (i : ℕ) (v : Serving table decoders)
        → ((j : ℕ) → Follows j (v.handlers j))
        → (j : ℕ) → Follows j ((turn table decoders i v).handlers j)
    unfolding turn
    turn-Follows i v own j = elim (Bool-cases (nat_beq i j)) [
      | inl same ↦
          let one : i ≡ j = (nat_beq_iff i j).0 same in
          rw same (
            subst (λ n. Follows n (proceed table decoders (v.handlers i) v.state).0) one
              (proceed-Follows i (v.handlers i) v.state (own i)))
      | inr other ↦ rw other (own j)
    ]

    turn-Inv :
        (before : State table) (i : ℕ) (v : Serving table decoders)
        → Inv before v
        → Inv before (turn table decoders i v)
    unfolding turn
    turn-Inv before i v h =
        let h' = (proceed table decoders (v.handlers i) v.state).0 in
        let s' = (proceed table decoders (v.handlers i) v.state).1 in
        let effect = λ (k : Str).
          proceed-Turns table laws decoders k (v.handlers i) v.state (h.db, h.connected) in
        let both = λ (k : Str).
          kept i k (get before.accounts k) (in_table table laws before.db k) (v.handlers i) v.state
            h' s' (effect k).1 (h.follows i)
            (proceed-Follows i (v.handlers i) v.state (h.follows i)) (h.memory k) (h.table_too k) in
        record {
          follows = turn-Follows i v h.follows;
          db = (effect []).0.0;
          connected = (effect []).0.1;
          memory = λ k. (both k).0;
          table_too = λ k. (both k).1;
        }

    turns-Inv :
        (before : State table) (is : List ℕ) (v : Serving table decoders)
        → Inv before v
        → Inv before (turns table decoders is v)
    unfolding turns
    turns-Inv before [] v h = h
    turns-Inv before (i ∷ is) v h =
        turns-Inv before is (turn table decoders i v) (turn-Inv before i v h)

    -- With a database whose table keeps what is upserted: however the registrations that run at the
    -- same time are interleaved, and wherever each of them stands, the store and the table each give
    -- for every PID what they gave before, or a password that one of the requests posted for this
    -- very PID and that passed the checks.
    pub turns-ComesFrom :
        (s : State table) (is : List ℕ) (db : table.Db) (k : Str)
        → s.db ≡ some db
        → ComesFrom k
            (get s.accounts k)
            (get (turns table decoders is (at_arrival table decoders requests s)).state.accounts k)
          × ComesFrom k (in_table table laws s.db k) (
              in_table table laws
                (turns table decoders is (at_arrival table decoders requests s)).state.db
                k)
    turns-ComesFrom s is db k on =
        let h = turns-Inv s is (at_arrival table decoders requests s) (record {
          follows = λ i. refl;
          db = db;
          connected = on;
          memory = λ k. inl refl;
          table_too = λ k. inl refl;
        }) in
        (h.memory k, h.table_too k)
