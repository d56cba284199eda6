-- ===== src/Geo.antt =====
-- server/geo.go: approximate places of addresses, looked up in the background and kept.
-- Coordinates are floats, and belong to a parameter with the reply of the web service.
pub mod Lookups
pub mod Hosts
pub mod Points
mod Tests
use fbf_3ds_servers.Base.{
  or_false, ltb, ℕ, ◌+◌, ◌≢◌, Bool, true, false, not, ◌||◌, ◌&&◌, Option, none, some, List, [], ◌∷◌,
  Str, txt, str_beq, str_eq, lookup, insert, delete, if◌then◌else◌,
}

-- The reply of ip-api.com.
pub record Reply (Point : Type 0) : Type 0 where
  pub status : Str
  pub place : Point

-- geoPoint, package net and the arithmetic of floats.
pub record Places : Type 1 where
  pub Point : Type 0
  pub zero_point : Point
  -- `p.Lat != 0 || p.Lon != 0`
  pub is_place : Point → Bool
  -- Both coordinates cut to a multiple of 0.3.
  pub snap : Point → Point
  pub Ip : Type 0
  pub parse_ip : Str → Option Ip
  pub is_private : Ip → Bool
  pub is_loopback : Ip → Bool

-- A connection of a secure endpoint: its PID, and the host of its address, none where it has no
-- address or one that net.SplitHostPort refuses.
pub record Connection : Type 0 where
  pub pid : ℕ
  pub host : Option Str

-- `ips`
abbrev pub Ips : Type 0
Ips = List (Str × Bool)

unfoldable pub add_host : Connection → Ips → Ips
add_host c ips = elim c.host [
  | none ↦ ips
  | some host ↦ if ltb 2 c.pid then insert host true ips else ips
]

-- The loop over the connections of one endpoint.
unfoldable pub add_hosts : List Connection → Ips → Ips
unfolding add_host
add_hosts [] ips = ips
add_hosts (c ∷ cs) ips = add_hosts cs (add_host c ips)

-- The loop over the endpoints; none is one that is nil or has no map of connections.
unfoldable pub all_ips : List (Option (List Connection)) → Ips → Ips
unfolding add_hosts
all_ips [] ips = ips
all_ips (none ∷ eps) ips = all_ips eps ips
all_ips (some cs ∷ eps) ips = all_ips eps (add_hosts cs ips)

module _ (places : Places) where
  open places use {Point, zero_point, is_place, snap, parse_ip, is_private, is_loopback}

  -- geoCache and geoInflight.
  pub record Geo : Type 0 where
    pub cache : List (Str × Point)
    pub inflight : List (Str × Bool)

  abbrev pub empty : Geo
  empty = record { cache = []; inflight = [] }

  -- geoLocate: the point and whether it is one, the maps, and whether a lookup is started.
  unfoldable pub geo_locate : Str → Geo → Point × Bool × Geo × Bool
  geo_locate ip g = elim (lookup ip g.cache) [
    | some p ↦ (p, is_place p, g, false)
    | none ↦
        if or_false (lookup ip g.inflight)
        then (zero_point, false, g, false)
        else (zero_point, false, record g { inflight = insert ip true g.inflight }, true)
  ]

  -- The first part of fetchGeo: `reply` is what the web service gives, none on an error.
  unfoldable pub fetched_point : Str → Option (Reply Point) → Point
  fetched_point ip reply = elim (parse_ip ip) [
    | none ↦ zero_point
    | some parsed ↦
        if not (is_private parsed) && not (is_loopback parsed)
        then elim reply [
          | none ↦ zero_point
          | some r ↦ if str_beq r.status (txt "success") then snap r.place else zero_point
        ]
        else zero_point
  ]

  -- fetchGeo, the part under the mutex.
  unfoldable pub fetch_geo : Str → Option (Reply Point) → Geo → Geo
  unfolding fetched_point
  fetch_geo ip reply g = record {
    cache = insert ip (fetched_point ip reply) g.cache;
    inflight = delete ip g.inflight;
  }

  -- The maps, the lookups that run now, and those that were ever started, once for each start.
  pub record World : Type 0 where
    pub geo : Geo
    pub running : List Str
    pub started : List Str

  abbrev pub start : World
  start = record { geo = empty; running = []; started = [] }

  -- `go fetchGeo(ip)`
  abbrev pub spawn : Str → Bool → List Str → List Str
  spawn ip true ips = ip ∷ ips
  spawn ip false ips = ips

  -- One of the lookups of an address ends.
  unfoldable pub end_one : Str → List Str → List Str
  end_one ip [] = []
  end_one ip (j ∷ ips) = let rest = end_one ip ips in if str_beq j ip then ips else j ∷ rest

  unfoldable pub ask : Str → World → World
  unfolding geo_locate
  ask ip w =
      let (point, known, geo, starts) = geo_locate ip w.geo in
      record { geo = geo; running = spawn ip starts w.running; started = spawn ip starts w.started }

  -- The loop over `ips`.
  unfoldable pub points_of : Ips → World → List Point × World
  unfolding ask
  points_of [] w = ([], w)
  points_of ((ip, _) ∷ ips) w =
      let (p, known, _, _) = geo_locate ip w.geo in
      let (points, w') = points_of ips (ask ip w) in (if known then p ∷ points else points, w')

  -- onlineLocations. Lookups of locations finish before or after the loop over the addresses.
  unfoldable pub online_locations : List (Option (List Connection)) → World → List Point × World
  unfolding all_ips points_of
  online_locations eps w = points_of (all_ips eps []) w

  unfoldable pub finish : Str → Option (Reply Point) → World → World
  unfolding fetch_geo end_one
  finish ip reply w = record w { geo = fetch_geo ip reply w.geo; running = end_one ip w.running }

  -- How often an address stands in a list.
  unfoldable pub count : Str → List Str → ℕ
  count ip [] = 0
  count ip (j ∷ ips) = if str_beq j ip then count ip ips + 1 else count ip ips

  -- The worlds that calls of geoLocate and ends of lookups lead to, in any order; only a lookup that
  -- runs can end.
  pub data Reachable : World → Type 0 where
    begin : Reachable start
    asked : {w : World} (ip : Str) → Reachable w → Reachable (ask ip w)
    finished :
        {w : World} (ip : Str) (reply : Option (Reply Point))
        → count ip w.running ≢ 0
        → Reachable w
        → Reachable (finish ip reply w)
