-- ===== src/Games/Routing.antt =====
-- Which logins the server answers itself.
use mathlib.Core.Option
use fbf_3ds_servers.Base.{
  ℕ, ◌≡◌, ◌&&◌, true, Option, none, some, List, [], ◌∷◌, Str, txt, str_beq, str_beq_iff, Env, env,
  if◌then◌else◌, arith,
}
use fbf_3ds_servers.Games.{
  GameServer, ffe_game_id, fl_game_id, mk7_game_id, init_games, enabled, game_by_id,
}
use fbf_3ds_servers.Games.Config.{init_games_lem}

-- The port that a login for a game ID is sent to; `none` for a login that is passed on.
abbrev pub hosted_port : Env → Str → Option ℕ
hosted_port getenv id =
    if str_beq ffe_game_id id
    then some 61001
    else if str_beq fl_game_id id
    then some 61021
    else if str_beq mk7_game_id id && str_beq (env getenv (txt "FFE_CONTROL_MK7") []) (txt "1")
    then some 61011
    else none

-- Over the table of start-up, a game ID is found exactly if it is that of FF Explorers, of Fantasy
-- Life, or of the control game while FFE_CONTROL_MK7 is 1; the entry found has that game's port.
pub game_by_id-hosted :
    (getenv : Env) (gs : List GameServer) (id : Str)
    → init_games getenv ≡ some gs
    → Option.map (λ g. g.auth_port) (game_by_id getenv gs id) ≡ hosted_port getenv id
unfolding game_by_id enabled
game_by_id-hosted getenv gs id h =
    let (ffe, fl, mk7, whole, a, b, c) = init_games_lem getenv in ground arith

-- The entry found carries the ID that was asked for, and is enabled.
pub game_by_id-same :
    (getenv : Env) (gs : List GameServer) (id : Str) {g : GameServer}
    → game_by_id getenv gs id ≡ some g
    → (g.game_id ≡ id) × (enabled getenv g ≡ true)
unfolding game_by_id
game_by_id-same getenv [] id h = ground arith
game_by_id-same getenv (x ∷ gs) id {g} h =
    ground (arith, str_beq_iff x.game_id id, game_by_id-same getenv gs id {g = g})
