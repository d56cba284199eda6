-- ===== src/Startup/Race.antt =====
-- The secure servers start at the same time: main of server/main.go starts a goroutine for each,
-- and startSecureServer reads and writes the variable `relay` with no lock. The part of it that
-- stands between the test of the database and the listening is taken apart here at each access of what is shared, in one order of all accesses; managers are objects that several pointers
-- can name. Consoles of a server that listens already may ask for links in between.
pub mod Invariant
pub mod Accesses
pub mod Picks
pub mod Settled
mod Tests
use fbf_3ds_servers.Base.{
  ℕ, ◌+◌, ◌&&◌, Bool, Option, none, some, List, [], ◌∷◌, Str, txt, str_beq, nat_beq, ltb, split,
  Env, env, if◌then◌else◌,
}
use fbf_3ds_servers.Relay.{RelayManager, RelayLink, Sockets, new_relay_manager, set_hosts, link}
use fbf_3ds_servers.Startup.{pool_of}

-- Where a server stands; a pointer is the number of the manager.
pub data Position : Type 0 where
  at_test : Position
  -- `relay == nil` was found true.
  at_new : Position
  -- Before `relay` is read for setHosts.
  at_read : Position
  -- In setHosts, with the pointer that was read.
  in_set_hosts : ℕ → Position
  -- Before `relay.publicHost` is read for the log.
  at_log : Position
  listening : Position

-- The variable, the objects, and the servers.
pub record Shared : Type 0 where
  pub relay : Option ℕ
  pub made : ℕ
  pub managers : ℕ → RelayManager
  pub servers : ℕ → Position

abbrev pub replace {ℓ} : {A : Type ℓ} → (ℕ → A) → ℕ → A → ℕ → A
replace f i a j = if nat_beq i j then a else f j

-- Before the servers start.
abbrev pub at_start : Shared
at_start = record {
  relay = none;
  made = 0;
  managers = λ p. new_relay_manager [];
  servers = λ i. at_test;
}

module _ (getenv : Env) where
  -- A new manager becomes the value of `relay`.
  unfoldable pub assign_new : Shared → Shared
  assign_new s = record s {
    relay = some s.made;
    made = s.made + 1;
    managers =
        replace s.managers s.made
          (new_relay_manager (env getenv (txt "FFE_PUBLIC_HOST") (txt "10.0.0.95")));
  }

  -- setHosts on an object.
  unfoldable pub give_pool : ℕ → Shared → Shared
  unfolding pool_of
  give_pool p s = record s {
    managers =
        replace s.managers p
          (set_hosts (pool_of (split b',' (getenv (txt "FFE_RELAY_IPS")))) (s.managers p));
  }

  -- `postgres` and the environment stay as they are.
  abbrev pub relays : Bool → Bool
  relays database = database && str_beq (getenv (txt "FFE_RELAY")) (txt "1")

  -- A server at this point makes its next access: none is a use of a nil pointer, a panic.
  unfoldable pub access : Bool → Position → Shared → Option (Position × Shared)
  unfolding assign_new give_pool
  access database at_test s =
      if relays database
      then elim s.relay [ none ↦ some (at_new, s) | some _ ↦ some (at_read, s) ]
      else some (listening, s)
  access database at_new s = some (at_read, assign_new s)
  access database at_read s =
      if str_beq (getenv (txt "FFE_RELAY_IPS")) []
      then some (at_log, s)
      else elim s.relay [ none ↦ none | some p ↦ some (in_set_hosts p, s) ]
  access database (in_set_hosts p) s = some (at_log, give_pool p s)
  access database at_log s = elim s.relay [ none ↦ none | some _ ↦ some (listening, s) ]
  access database listening s = some (listening, s)

  abbrev stand : ℕ → Position × Shared → Shared
  stand i (point, s) = record s { servers = replace s.servers i point }

  -- The scheduler picks a server.
  unfoldable pub pick : Bool → ℕ → Shared → Option Shared
  unfolding access
  pick database i s = elim (access database (s.servers i) s) [
    | none ↦ none
    | some out ↦ some (stand i out)
  ]

-- The scheduler picks a server, or a console's handler that has read a pointer calls link.
pub data Turn : Type 0 where
  server_turn : ℕ → Turn
  console_link : ℕ → ℕ → ℕ → Turn

module _ (net : Sockets) (getenv : Env) where
  -- link on an object; a pointer to no object is nobody's.
  unfoldable pub link_at : ℕ → ℕ → ℕ → Shared → net.Os → Shared × net.Os
  link_at p a b s os =
      if ltb p s.made
      then (
        record s { managers = replace s.managers p (link net a b (s.managers p) os).1 },
        (link net a b (s.managers p) os).2,
      )
      else (s, os)

  unfoldable pub all_turns : Bool → List Turn → Shared → net.Os → Option (Shared × net.Os)
  unfolding pick link_at
  all_turns database [] s os = some (s, os)
  all_turns database (server_turn i ∷ ts) s os = elim (pick getenv database i s) [
    | none ↦ none
    | some s' ↦ all_turns database ts s' os
  ]
  all_turns database (console_link p a b ∷ ts) s os =
      all_turns database ts (link_at p a b s os).0 (link_at p a b s os).1
