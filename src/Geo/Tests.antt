-- ===== src/Geo/Tests.antt =====
-- A lookup of one address, with a point that is a number.
use mathlib.Core.List.{Mem}
use fbf_3ds_servers.Base.{
  All, none, List, ℕ, ◌≡◌, refl, true, false, not, Option, some, [], ◌∷◌, Str, txt, str_eq, nat_beq,
  lookup, insert, delete, arith,
}
use fbf_3ds_servers.Geo.{
  Connection, add_host, add_hosts, all_ips, points_of, online_locations, Reply, Places, World,
  start, geo_locate, fetched_point, fetch_geo, end_one, ask, finish, count, Reachable, begin, asked,
  finished,
}
use fbf_3ds_servers.Geo.Hosts.{is_online}
use fbf_3ds_servers.Geo.Points.{IsKept, is_asked, online_locations_lem}
use fbf_3ds_servers.Geo.Lookups.{Phase, Reachable-Phase}

program : Unit {0}
unfolding add_host add_hosts all_ips points_of online_locations geo_locate fetched_point fetch_geo
    end_one ask finish count lookup insert delete
program = tt

abbrev flat : Places
flat = record {
  Point = ℕ;
  zero_point = 0;
  is_place = λ p. not (nat_beq p 0);
  snap = λ p. p;
  Ip = Str;
  parse_ip = some;
  is_private = λ ip. false;
  is_loopback = λ ip. false;
}

abbrev ip : Str
ip = txt "198.51.100.1"

abbrev found : Option (Reply ℕ)
found = some (record { status = txt "success"; place = 48 })

-- Two calls start one lookup; after it, a call gives the point.
abbrev loaded : World flat
loaded = finish flat ip found (ask flat ip (ask flat ip (start flat)))

loaded-Reachable : Reachable flat loaded
unfolding program
loaded-Reachable = finished ip found (omega arith) (asked ip (asked ip begin))

locate_test :
    ((geo_locate flat ip loaded.geo).0 ≡ 48)
    × ((geo_locate flat ip loaded.geo).1 ≡ true)
    × (loaded.started ≡ ip ∷ [])
unfolding program
locate_test = (refl, refl, refl)

Reachable-Phase_example : Phase flat ip loaded
Reachable-Phase_example = Reachable-Phase flat loaded-Reachable ip

-- A server account, two consoles at the known address, one at a new address and one at none.
abbrev endpoints : List (Option (List Connection))
endpoints =
    none
    ∷ some (
        record { pid = 2; host = some (txt "198.51.100.9") }
        ∷ record { pid = 1700000001; host = some ip }
        ∷ record { pid = 1700000002; host = none }
        ∷ [])
    ∷ some (
        record { pid = 1700000003; host = some ip }
        ∷ record { pid = 1700000004; host = some (txt "198.51.100.7") }
        ∷ [])
    ∷ []

points_test :
    ((online_locations flat endpoints loaded).0 ≡ 48 ∷ [])
    × ((online_locations flat endpoints loaded).1.running ≡ txt "198.51.100.7" ∷ [])
unfolding program
points_test = (refl, refl)

online_locations_lem_example :
    Reachable flat (online_locations flat endpoints loaded).1
    × All
        (IsKept flat (λ i. is_online i endpoints ≡ true) loaded)
        (online_locations flat endpoints loaded).0
    × ((i : Str) (p : ℕ)
        → is_online i endpoints ≡ true
        → lookup i loaded.geo.cache ≡ some p
        → flat.is_place p ≡ true
        → Mem p (online_locations flat endpoints loaded).0)
    × ((i : Str)
        → is_online i endpoints ≡ true
        → is_asked flat i (online_locations flat endpoints loaded).1 ≡ true)
online_locations_lem_example = online_locations_lem flat endpoints loaded-Reachable
