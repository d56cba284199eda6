-- ===== src/Stats/Tests.antt =====
-- The dashboard's numbers for two games that share a player.
use fbf_3ds_servers.Base.{ℕ, ◌≡◌, ◌≤◌, refl, Option, none, some, List, [], ◌∷◌, map, txt, length}
use fbf_3ds_servers.Stats.{
  NamedEndpoint, register_secure_endpoint, has, add_pid, collect, endpoint_online_pids, add_pids,
  online_from, online_players, owners_of, registered_gathering_owners, count_query, rooms_of,
  StatsResponse, game_stat, game_stats, current_stats,
}
use fbf_3ds_servers.Stats.Online.{
  IsDistinct, is_online_somewhere, sum_online, sum_rooms, current_stats_lem,
}

program : Unit {0}
unfolding register_secure_endpoint has add_pid collect endpoint_online_pids add_pids online_from
    online_players owners_of registered_gathering_owners count_query rooms_of game_stat game_stats
    current_stats
program = tt

-- Console 10 is connected to both games, with two connections to the first.
abbrev eps : List NamedEndpoint
eps =
    record { name = txt "a"; game_id = txt "1"; connections = some (2 ∷ 10 ∷ 11 ∷ 10 ∷ []) }
    ∷ record { name = txt "b"; game_id = txt "2"; connections = some (10 ∷ 12 ∷ []) }
    ∷ record { name = txt "c"; game_id = txt "3"; connections = none }
    ∷ []

abbrev owners : Option (List (Option ℕ))
owners = some (some 11 ∷ none ∷ some 99 ∷ some 10 ∷ [])

abbrev stats : StatsResponse ℕ ℕ
stats = current_stats 0 [] eps owners (some 40)

stats_tests :
    (stats.online ≡ 3)
    × (map (λ g. g.online) stats.games ≡ 2 ∷ 2 ∷ 0 ∷ [])
    × (map (λ g. g.rooms) stats.games ≡ 2 ∷ 1 ∷ 0 ∷ [])
    × (stats.rooms ≡ 3)
    × (stats.registered ≡ 40)
    × (length (online_players eps) ≡ 3)
unfolding program
stats_tests = (refl, refl, refl, refl, refl, refl)

current_stats_lem_example :
    (players : List ℕ) × IsDistinct players
    × ((pid : ℕ) → has pid players ≡ is_online_somewhere pid eps)
    × ((current_stats {Metrics = ℕ} {Point = ℕ} 0 [] eps owners (some 40)).online ≡ length players)
    × (length players
        ≤ sum_online (current_stats {Metrics = ℕ} {Point = ℕ} 0 [] eps owners (some 40)).games)
    × ((current_stats {Metrics = ℕ} {Point = ℕ} 0 [] eps owners (some 40)).rooms
        ≡ sum_rooms (current_stats {Metrics = ℕ} {Point = ℕ} 0 [] eps owners (some 40)).games)
    × ((current_stats {Metrics = ℕ} {Point = ℕ} 0 [] eps owners (some 40)).games
        ≡ map (game_stat (registered_gathering_owners owners)) eps)
current_stats_lem_example = current_stats_lem {Metrics = ℕ} {Point = ℕ} 0 [] eps owners (some 40)
