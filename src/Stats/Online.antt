-- ===== src/Stats/Online.antt =====
-- What the numbers of the dashboard count.
use fbf_3ds_servers.Base.{
  ℕ, ◌+◌, ◌≡◌, ◌≤◌, refl, ap, inl, inr, Bool, false, ◌||◌, ◌&&◌, Option, none, some, List, [], ◌∷◌,
  map, nat_beq, nat_beq_iff, ltb, length, Bool-cases, arith,
}
use fbf_3ds_servers.Stats.{
  NamedEndpoint, has, add_pid, collect, endpoint_online_pids, add_pids, registered_gathering_owners,
  GameStat, game_stat, game_stats, online_from, online_players, current_stats,
}

-- No PID stands twice.
abbrev pub IsDistinct : List ℕ → Type 0
IsDistinct [] = Unit
IsDistinct (p ∷ ps) = (has p ps ≡ false) × IsDistinct ps

-- Whether a console is connected, told without sets.
abbrev pub is_connected : ℕ → List ℕ → Bool
is_connected pid [] = false
is_connected pid (p ∷ pids) = nat_beq p pid || is_connected pid pids

abbrev pub is_online : ℕ → Option (List ℕ) → Bool
is_online pid none = false
is_online pid (some pids) = ltb 2 pid && is_connected pid pids

abbrev pub is_online_somewhere : ℕ → List NamedEndpoint → Bool
is_online_somewhere pid [] = false
is_online_somewhere pid (e ∷ eps) = is_online pid e.connections || is_online_somewhere pid eps

abbrev pub sum_online : List GameStat → ℕ
sum_online [] = 0
sum_online (g ∷ gs) = g.online + sum_online gs

abbrev pub sum_rooms : List GameStat → ℕ
sum_rooms [] = 0
sum_rooms (g ∷ gs) = g.rooms + sum_rooms gs

has-add_pid : (p q : ℕ) (s : List ℕ) → has p (add_pid q s) ≡ (nat_beq q p || has p s)
unfolding add_pid has
has-add_pid p q s = elim (Bool-cases (nat_beq q p)) [
  | inl same ↦ let e = (nat_beq_iff q p).0 same in ground arith
  | inr other ↦ ground arith
]

add_pid-IsDistinct : (q : ℕ) (s : List ℕ) → IsDistinct s → IsDistinct (add_pid q s)
unfolding add_pid
add_pid-IsDistinct q s d = elim (Bool-cases (has q s)) [
  | inl old ↦ rw old d
  | inr new ↦ rw new (new, d)
]

length-add_pid : (q : ℕ) (s : List ℕ) → length (add_pid q s) ≤ length s + 1
unfolding add_pid
length-add_pid q s = ground arith

has-collect :
    (p : ℕ) (seen pids : List ℕ)
    → has p (collect seen pids) ≡ (has p seen || (ltb 2 p && is_connected p pids))
unfolding collect
has-collect p seen [] = ground arith
has-collect p seen (q ∷ pids) = ground (
  arith,
  has-collect p seen pids,
  has-collect p (add_pid q seen) pids,
  has-add_pid p q seen,
  nat_beq_iff q p,
)

collect-IsDistinct : (seen pids : List ℕ) → IsDistinct seen → IsDistinct (collect seen pids)
unfolding collect
collect-IsDistinct seen [] d = d
collect-IsDistinct seen (q ∷ pids) d = elim (Bool-cases (ltb 2 q)) [
  | inl console ↦
      rw console (collect-IsDistinct (add_pid q seen) pids (add_pid-IsDistinct q seen d))
  | inr server ↦ rw server (collect-IsDistinct seen pids d)
]

has-endpoint : (p : ℕ) (c : Option (List ℕ)) → has p (endpoint_online_pids c) ≡ is_online p c
unfolding endpoint_online_pids has
has-endpoint p none = refl
has-endpoint p (some pids) = has-collect p [] pids

has-add_pids :
    (p : ℕ) (pids total : List ℕ) → has p (add_pids pids total) ≡ (has p pids || has p total)
unfolding add_pids has
has-add_pids p [] total = refl
has-add_pids p (q ∷ pids) total =
    ground (arith, has-add_pids p pids (add_pid q total), has-add_pid p q total)

add_pids-IsDistinct : (pids total : List ℕ) → IsDistinct total → IsDistinct (add_pids pids total)
unfolding add_pids
add_pids-IsDistinct [] total d = d
add_pids-IsDistinct (q ∷ pids) total d =
    add_pids-IsDistinct pids (add_pid q total) (add_pid-IsDistinct q total d)

length-add_pids : (pids total : List ℕ) → length (add_pids pids total) ≤ length total + length pids
unfolding add_pids
length-add_pids [] total = omega arith
length-add_pids (q ∷ pids) total =
    omega (arith, length-add_pids pids (add_pid q total), length-add_pid q total)

module _ (owners : List ℕ) where
  game_stats_entries :
      (eps : List NamedEndpoint) (total : List ℕ) (rooms : ℕ)
      → (game_stats owners eps total rooms).0 ≡ map (game_stat owners) eps
  unfolding game_stats
  game_stats_entries [] total rooms = refl
  game_stats_entries (e ∷ eps) total rooms =
      ap (◌∷◌ (game_stat owners e)) (game_stats_entries eps _ _)

  has-game_stats :
      (p : ℕ) (eps : List NamedEndpoint) (total : List ℕ) (rooms : ℕ)
      → has p (game_stats owners eps total rooms).1 ≡ (has p total || is_online_somewhere p eps)
  unfolding game_stats
  has-game_stats p [] total rooms = ground arith
  has-game_stats p (e ∷ eps) total rooms =
      let pids = endpoint_online_pids e.connections in
      ground (
        arith,
        has-game_stats p eps (add_pids pids total) (rooms + (game_stat owners e).rooms),
        has-add_pids p pids total,
        has-endpoint p e.connections,
      )

  game_stats-IsDistinct :
      (eps : List NamedEndpoint) (total : List ℕ) (rooms : ℕ)
      → IsDistinct total
      → IsDistinct (game_stats owners eps total rooms).1
  unfolding game_stats
  game_stats-IsDistinct [] total rooms d = d
  game_stats-IsDistinct (e ∷ eps) total rooms d =
      game_stats-IsDistinct eps _ _
        (add_pids-IsDistinct (endpoint_online_pids e.connections) total d)

  length-game_stats :
      (eps : List NamedEndpoint) (total : List ℕ) (rooms : ℕ)
      → length (game_stats owners eps total rooms).1
        ≤ length total + sum_online (game_stats owners eps total rooms).0
  unfolding game_stats game_stat
  length-game_stats [] total rooms = omega arith
  length-game_stats (e ∷ eps) total rooms =
      let pids = endpoint_online_pids e.connections in
      omega (
        arith,
        length-game_stats eps (add_pids pids total) (rooms + (game_stat owners e).rooms),
        length-add_pids pids total,
      )

  rooms-game_stats :
      (eps : List NamedEndpoint) (total : List ℕ) (rooms : ℕ)
      → (game_stats owners eps total rooms).2
        ≡ rooms + sum_rooms (game_stats owners eps total rooms).0
  unfolding game_stats
  rooms-game_stats [] total rooms = omega arith
  rooms-game_stats (e ∷ eps) total rooms = omega (
    arith,
    rooms-game_stats eps (add_pids (endpoint_online_pids e.connections) total)
        (rooms + (game_stat owners e).rooms),
  )

has-online_from :
    (p : ℕ) (seen : List ℕ) (eps : List NamedEndpoint)
    → has p (online_from seen eps) ≡ (has p seen || is_online_somewhere p eps)
unfolding online_from
has-online_from p seen [] = ground arith
has-online_from p seen (e ∷ eps) =
    let pids = endpoint_online_pids e.connections in
    ground (
      arith,
      has-online_from p (add_pids pids seen) eps,
      has-add_pids p pids seen,
      has-endpoint p e.connections,
    )

online_from-IsDistinct :
    (seen : List ℕ) (eps : List NamedEndpoint) → IsDistinct seen → IsDistinct (online_from seen eps)
unfolding online_from
online_from-IsDistinct seen [] d = d
online_from-IsDistinct seen (e ∷ eps) d =
    online_from-IsDistinct (add_pids (endpoint_online_pids e.connections) seen) eps
      (add_pids-IsDistinct (endpoint_online_pids e.connections) seen d)

-- The list of players holds each PID above 2 that is connected to some game's endpoint once, and no
-- other number.
online_players-IsDistinct :
    (eps : List NamedEndpoint)
    → IsDistinct (online_players eps)
      × ((pid : ℕ) → has pid (online_players eps) ≡ is_online_somewhere pid eps)
unfolding online_players has
online_players-IsDistinct eps =
    (online_from-IsDistinct [] eps tt, λ pid. has-online_from pid [] eps)

-- The number of players online counts each PID above 2 that is connected to some game's endpoint
-- once, and is at most the sum over the games; the number of rooms is the sum over the games, and
-- there is one entry for each endpoint, in their order.
pub current_stats_lem :
    {Metrics Point : Type 0} (m : Metrics) (points : List Point) (eps : List NamedEndpoint)
    (owners : Option (List (Option ℕ))) (registered : Option ℕ)
    → (players : List ℕ) × IsDistinct players
      × ((pid : ℕ) → has pid players ≡ is_online_somewhere pid eps)
      × ((current_stats m points eps owners registered).online ≡ length players)
      × (length players ≤ sum_online (current_stats m points eps owners registered).games)
      × ((current_stats m points eps owners registered).rooms
          ≡ sum_rooms (current_stats m points eps owners registered).games)
      × ((current_stats m points eps owners registered).games
          ≡ map (game_stat (registered_gathering_owners owners)) eps)
unfolding current_stats has
current_stats_lem m points eps owners registered =
    let os = registered_gathering_owners owners in
    (
      (game_stats os eps [] 0).1,
      game_stats-IsDistinct os eps [] 0 tt,
      λ pid. has-game_stats os pid eps [] 0,
      refl,
      omega (arith, length-game_stats os eps [] 0),
      omega (arith, rooms-game_stats os eps [] 0),
      game_stats_entries os eps [] 0,
    )
