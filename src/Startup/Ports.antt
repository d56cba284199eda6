-- ===== src/Startup/Ports.antt =====
-- Which ports are served, and that a login is sent to one of them.
use mathlib.Core.Path.{subst}
use mathlib.Core.List.{Mem, mem-cons_self, mem-cons_of_mem}
use fbf_3ds_servers.Base.{
  ℕ, ◌%◌, ◌≡◌, refl, inl, inr, Bool, true, ◌&&◌, Option, some, List, [], ◌∷◌, ◌++◌, Str, txt,
  str_beq, Env, env, if◌then◌else◌, Bool-cases, arith,
}
use fbf_3ds_servers.Games.{GameServer, init_games, enabled, game_by_id}
use fbf_3ds_servers.Games.Config.{init_games_lem}
use fbf_3ds_servers.Games.Routing.{game_by_id-same}
use fbf_3ds_servers.Relay.{RelayManager, set_hosts}
use fbf_3ds_servers.Startup.{
  AuthServer, SecureServer, Task, nasc, http_register, authentication, secure,
  start_authentication_server, start_secure_server, secure_url, start_relay, game_tasks, main_tasks,
}

-- The UDP ports of a task; those of HTTP are set elsewhere.
abbrev pub port_of : Task → List ℕ
port_of nasc = []
port_of http_register = []
port_of (authentication a) = a.listen ∷ []
port_of (secure s) = s.listen ∷ []

abbrev pub ports_of : List Task → List ℕ
ports_of [] = []
ports_of (t ∷ ts) = port_of t ++ ports_of ts

-- With the table of start-up, the NEX servers listen on 61001, 61002, 61021 and 61022, and while
-- FFE_CONTROL_MK7 is 1 on 61011 and 61012, in this order and each once.
ports-main_tasks :
    (getenv : Env) (database : Bool) (games : List GameServer)
    → init_games getenv ≡ some games
    → ports_of (main_tasks getenv database games)
      ≡ 61001
        ∷ 61002
        ∷ 61021
        ∷ 61022
        ∷ (if str_beq (env getenv (txt "FFE_CONTROL_MK7") []) (txt "1")
            then 61011 ∷ 61012 ∷ []
            else [])
unfolding main_tasks game_tasks start_authentication_server start_secure_server enabled
ports-main_tasks getenv database games h =
    let (ffe, fl, mk7, whole, a, b, c) = init_games_lem getenv in ground arith

abbrev Both : Env → Bool → List GameServer → GameServer → Type 0
Both getenv database games g =
    Mem (authentication (start_authentication_server getenv g)) (game_tasks getenv database games)
    × Mem (secure (start_secure_server getenv database g)) (game_tasks getenv database games)

-- Further games start further servers.
Both-cons :
    (getenv : Env) (database : Bool) (x : GameServer) (games : List GameServer) (g : GameServer)
    → Both getenv database games g
    → Both getenv database (x ∷ games) g
unfolding game_tasks
Both-cons getenv database x games g h = elim (Bool-cases (enabled getenv x)) [
  | inl on ↦
      rw (on, game_tasks)
        (mem-cons_of_mem _ (mem-cons_of_mem _ h.0), mem-cons_of_mem _ (mem-cons_of_mem _ h.1))
  | inr off ↦ rw (off, game_tasks) h
]

Both-here :
    (getenv : Env) (database : Bool) (g : GameServer) (games : List GameServer)
    → enabled getenv g ≡ true
    → Both getenv database (g ∷ games) g
unfolding game_tasks
Both-here getenv database g games on =
    rw (on, game_tasks) (mem-cons_self, mem-cons_of_mem _ mem-cons_self)

game_by_id-Both :
    (getenv : Env) (database : Bool) (games : List GameServer) (id : Str) (g : GameServer)
    → game_by_id getenv games id ≡ some g
    → Both getenv database games g
unfolding game_by_id
game_by_id-Both getenv database [] id g h = absurd (ground arith)
game_by_id-Both getenv database (x ∷ games) id g h =
    elim (Bool-cases (str_beq x.game_id id && enabled getenv x)) [
      | inl found ↦
          let same : x ≡ g = ground arith in
          subst (Both getenv database (x ∷ games)) same
            (Both-here getenv database x games (ground arith))
      | inr other ↦
          Both-cons getenv database x games g
            (game_by_id-Both getenv database games id g (rw other at h))
    ]

-- A game that a login is answered for is served: main starts an authentication server on the
-- game's authentication port, and a secure server for its ID; and that authentication server sends consoles on to
-- the port on which the secure server listens, cut to 16 bits.
pub game_by_id-served :
    (getenv : Env) (database : Bool) (games : List GameServer) (id : Str) {g : GameServer}
    → game_by_id getenv games id ≡ some g
    → (a : AuthServer) × (s : SecureServer) × Mem
        (authentication a)
        (main_tasks getenv database games)
      × Mem (secure s) (main_tasks getenv database games)
      × (a.listen ≡ g.auth_port)
      × (s.game_id ≡ id)
      × (a.secure_station_url.port_number ≡ s.listen % 65536)
unfolding main_tasks game_tasks game_by_id start_authentication_server start_secure_server
    secure_url
game_by_id-served getenv database games id {g} h =
    let started = game_by_id-Both getenv database games id g h in
    (
      start_authentication_server getenv g,
      start_secure_server getenv database g,
      mem-cons_of_mem _ (mem-cons_of_mem _ started.0),
      mem-cons_of_mem _ (mem-cons_of_mem _ started.1),
      refl,
      (game_by_id-same getenv games id h).0,
      refl,
    )

-- Once a secure server has started, the start of another leaves the relay's manager as it is.
start_relay_again :
    (getenv : Env) (database : Bool) (relay : Option RelayManager)
    → start_relay getenv database (start_relay getenv database relay)
      ≡ start_relay getenv database relay
unfolding start_relay set_hosts
start_relay_again getenv database relay = ground arith
