-- ===== src/Games/Tests.antt =====
-- The table of games and its lookup at concrete environments.
use mathlib.Core.Option
use fbf_3ds_servers.Base.{
  ◌≡◌, refl, none, some, List, [], txt, str_beq, str_eq, atoi, format_uint, Env, env, if◌then◌else◌,
}
use fbf_3ds_servers.Games.{
  GameServer, ffe_game_id, mk7_game_id, variant_index, ffe_variants, ffe_game, fl_game, mk7_game,
  init_games, enabled, game_by_id, display_name,
}
use fbf_3ds_servers.Games.Routing.{hosted_port, game_by_id-hosted}

program : Unit {0}
unfolding init_games variant_index ffe_variants ffe_game fl_game mk7_game enabled game_by_id
    display_name env atoi format_uint
program = tt

abbrev unset : Env
unset key = []

-- The tenth variant, with the control game on.
abbrev control : Env
control key =
    if str_beq key (txt "FFE_VARIANT")
    then txt "9"
    else if str_beq key (txt "FFE_CONTROL_MK7")
    then txt "1"
    else []

abbrev table : Env → List GameServer
table getenv = elim (init_games getenv) [ none ↦ [] | some gs ↦ gs ]

lookup_tests :
    (Option.map display_name (game_by_id unset (table unset) ffe_game_id)
      ≡ some (txt "Final Fantasy Explorers"))
    × (Option.map (λ g. g.auth_port) (game_by_id unset (table unset) mk7_game_id) ≡ none)
    × (Option.map (λ g. g.auth_port) (game_by_id control (table control) mk7_game_id) ≡ some 61011)
    × (variant_index control ≡ 9)
unfolding program
lookup_tests = (refl, refl, refl, refl)

game_by_id-hosted_example :
    Option.map (λ g. g.auth_port) (game_by_id control (table control) mk7_game_id)
    ≡ hosted_port control mk7_game_id
unfolding program
game_by_id-hosted_example = game_by_id-hosted control (table control) mk7_game_id refl
