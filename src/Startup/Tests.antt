-- ===== src/Startup/Tests.antt =====
-- What is started with the control game on, and with the relay over two addresses.
use mathlib.Core.List.{Mem}
use fbf_3ds_servers.Base.{
  ℕ, ℤ, All, false, parse_uint, parse_digits, ◌%◌, ◌≡◌, refl, true, none, some, List, [], ◌∷◌, txt,
  str_beq, str_eq, split, trim_space, atoi, format_uint, Env, env, if◌then◌else◌,
}
use fbf_3ds_servers.Games.{
  GameServer, ffe_game_id, variant_index, ffe_variants, ffe_game, fl_game, mk7_game, init_games,
  enabled, display_name, game_by_id,
}
use fbf_3ds_servers.Relay.{RelayManager, new_relay_manager, set_hosts}
use fbf_3ds_servers.Browse.{parse_attr_indices}
use fbf_3ds_servers.Startup.{
  AuthServer, SecureServer, authentication, secure, settings, secure_url,
  start_authentication_server, matchmaking, match_making_version, start_secure_server, pool_of,
  start_relay, game_tasks, main_tasks,
}
use fbf_3ds_servers.Accounts.Store.{Accounts, all_pids}
use fbf_3ds_servers.Startup.Callbacks.{
  secure_connection, protocols, get_user_friend_pids, nat_result_line, nat_detail_line,
}
use fbf_3ds_servers.Startup.Friends.{IsRegistered, friends_lem}
use fbf_3ds_servers.Startup.Ports.{game_by_id-served}

program : Unit {0}
unfolding settings secure_url start_authentication_server matchmaking match_making_version
    start_secure_server pool_of start_relay game_tasks main_tasks init_games variant_index
    ffe_variants ffe_game fl_game mk7_game enabled display_name game_by_id new_relay_manager
    set_hosts split trim_space env atoi format_uint parse_attr_indices
program = tt

abbrev control : Env
control key =
    if str_beq key (txt "FFE_CONTROL_MK7")
    then txt "1"
    else if str_beq key (txt "FFE_RELAY")
    then txt "1"
    else if str_beq key (txt "FFE_RELAY_IPS")
    then txt "10.0.0.1, ,10.0.0.2"
    else []

abbrev table : List GameServer
table = elim (init_games control) [ none ↦ [] | some gs ↦ gs ]

abbrev with_pool : RelayManager
with_pool = record {
  public_host = txt "10.0.0.95";
  hosts = txt "10.0.0.1" ∷ txt "10.0.0.2" ∷ [];
  host_seq = 0;
  links = [];
}

relay_test : start_relay control true none ≡ some with_pool
unfolding program
relay_test = refl

abbrev ffe : GameServer
ffe = elim (game_by_id control table ffe_game_id) [ none ↦ mk7_game | some g ↦ g ]

game_by_id-served_example :
    (a : AuthServer) × (s : SecureServer) × Mem (authentication a) (main_tasks control true table)
    × Mem (secure s) (main_tasks control true table)
    × (a.listen ≡ ffe.auth_port)
    × (s.game_id ≡ ffe_game_id)
    × (a.secure_station_url.port_number ≡ s.listen % 65536)
unfolding program
game_by_id-served_example = game_by_id-served control true table ffe_game_id {g = ffe} refl

abbrev community : Accounts
community =
    (txt "1900", txt "a")
    ∷ (txt "x", txt "b")
    ∷ (txt "4294967296", txt "c")
    ∷ (txt "007", txt "d")
    ∷ []

callback_tests :
    (get_user_friend_pids community 1 ≡ 1900 ∷ 7 ∷ [])
    × (protocols false ≡ secure_connection ∷ [])
    × (nat_detail_line 1900 3 false (ℤ.negsuc 4) 12
        ≡ txt "NATRESD reporter=1900 peer_cid=3 result=false detail=-5 rtt=12")
    × (nat_result_line 1900 3 true 0 ≡ txt "NATRES reporter=1900 peer_cid=3 result=true rtt=0")
unfolding get_user_friend_pids all_pids parse_uint parse_digits protocols nat_detail_line
    nat_result_line format_uint
callback_tests = (refl, refl, refl, refl)

friends_lem_example :
    All (IsRegistered community) (get_user_friend_pids community 1)
    × ((n : ℕ) → IsRegistered community n → Mem n (get_user_friend_pids community 1))
friends_lem_example = friends_lem community 1
