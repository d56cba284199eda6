-- ===== src/Stats.antt =====
-- server/stats.go: who is online, by game and in all, and the rooms of each game.
-- The connections of an endpoint belong to the NEX library; the metrics and the points of the map
-- are passed through.
pub mod Online
mod Tests
use fbf_3ds_servers.Base.{
  ℕ, ◌+◌, Bool, true, false, ◌||◌, Option, none, some, List, [], ◌∷◌, ◌++◌, Str, nat_beq, ltb,
  length, if◌then◌else◌,
}

-- namedEndpoint: the PIDs of its connections; none is an endpoint that is nil or has no map of
-- connections.
pub record NamedEndpoint : Type 0 where
  pub name : Str
  pub game_id : Str
  pub connections : Option (List ℕ)

-- registerSecureEndpoint
unfoldable pub register_secure_endpoint :
    Str → Str → Option (List ℕ) → List NamedEndpoint → List NamedEndpoint
register_secure_endpoint name id ep eps =
    eps ++ record { name = name; game_id = id; connections = ep } ∷ []

-- endpointsSnapshot: a copy.
abbrev pub endpoints_snapshot {ℓ} : {A : Type ℓ} → List A → List A
endpoints_snapshot eps = [] ++ eps

-- `seen[pid]` for a set of PIDs.
unfoldable pub has : ℕ → List ℕ → Bool
has pid [] = false
has pid (p ∷ seen) = nat_beq p pid || has pid seen

-- `seen[pid] = true`
unfoldable pub add_pid : ℕ → List ℕ → List ℕ
unfolding has
add_pid pid seen = if has pid seen then seen else pid ∷ seen

-- The loop over the connections: the two server accounts are left out.
unfoldable pub collect : List ℕ → List ℕ → List ℕ
unfolding add_pid
collect seen [] = seen
collect seen (pid ∷ pids) = collect (if ltb 2 pid then add_pid pid seen else seen) pids

-- endpointOnlinePIDs
unfoldable pub endpoint_online_pids : Option (List ℕ) → List ℕ
unfolding collect
endpoint_online_pids none = []
endpoint_online_pids (some pids) = collect [] pids

-- A loop that adds a set to another.
unfoldable pub add_pids : List ℕ → List ℕ → List ℕ
unfolding add_pid
add_pids [] total = total
add_pids (p ∷ pids) total = add_pids pids (add_pid p total)

unfoldable pub online_from : List ℕ → List NamedEndpoint → List ℕ
unfolding add_pids endpoint_online_pids
online_from seen [] = seen
online_from seen (e ∷ eps) = online_from (add_pids (endpoint_online_pids e.connections) seen) eps

-- onlinePlayers
unfoldable pub online_players : List NamedEndpoint → List ℕ
unfolding online_from
online_players eps = online_from [] eps

-- The rows of registeredGatheringOwners: one that cannot be scanned is passed over.
unfoldable pub owners_of : List (Option ℕ) → List ℕ
owners_of [] = []
owners_of (none ∷ rows) = owners_of rows
owners_of (some pid ∷ rows) = pid ∷ owners_of rows

-- registeredGatheringOwners: none without a database, or where the query fails.
unfoldable pub registered_gathering_owners : Option (List (Option ℕ)) → List ℕ
unfolding owners_of
registered_gathering_owners none = []
registered_gathering_owners (some rows) = owners_of rows

-- countQuery: none without a database, or where the query fails.
unfoldable pub count_query : Option ℕ → ℕ
count_query none = 0
count_query (some n) = n

pub record GameStat : Type 0 where
  pub name : Str
  pub game_id : Str
  pub online : ℕ
  pub rooms : ℕ

-- The rooms whose owner is in a set.
unfoldable pub rooms_of : List ℕ → List ℕ → ℕ
unfolding has
rooms_of pids [] = 0
rooms_of pids (o ∷ owners) = if has o pids then rooms_of pids owners + 1 else rooms_of pids owners

pub record StatsResponse (Metrics Point : Type 0) : Type 0 where
  pub online : ℕ
  pub rooms : ℕ
  pub registered : ℕ
  pub games : List GameStat
  pub metrics : Metrics
  pub points : List Point

-- One endpoint's entry.
unfoldable pub game_stat : List ℕ → NamedEndpoint → GameStat
unfolding endpoint_online_pids rooms_of
game_stat owners e = record {
  name = e.name;
  game_id = e.game_id;
  online = length (endpoint_online_pids e.connections);
  rooms = rooms_of (endpoint_online_pids e.connections) owners;
}

-- The loop of currentStats: the entries, the set of all PIDs and the count of all rooms.
unfoldable pub game_stats : List ℕ → List NamedEndpoint → List ℕ → ℕ → List GameStat × List ℕ × ℕ
unfolding game_stat add_pids
game_stats owners [] total rooms = ([], total, rooms)
game_stats owners (e ∷ eps) total rooms =
    let (games, total', rooms') =
      game_stats owners eps (add_pids (endpoint_online_pids e.connections) total)
        (rooms + (game_stat owners e).rooms) in
    (game_stat owners e ∷ games, total', rooms')

-- currentStats
unfoldable pub current_stats :
    {Metrics Point : Type 0}
    → Metrics
    → List Point
    → List NamedEndpoint
    → Option (List (Option ℕ))
    → Option ℕ
    → StatsResponse Metrics Point
unfolding game_stats registered_gathering_owners count_query
current_stats m points eps owners registered =
    let (games, total, rooms) = game_stats (registered_gathering_owners owners) eps [] 0 in
    record {
      online = length total;
      rooms = rooms;
      registered = count_query registered;
      games = games;
      metrics = m;
      points = points;
    }
