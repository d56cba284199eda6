-- ===== src/Games/Config.antt =====
-- What the start-up environment can and cannot change in the table of games.
use fbf_3ds_servers.Base.{
  ℕ, ◌<◌, ◌≡◌, refl, Bool, true, false, some, [], ◌∷◌, Str, Env, length, get_elem?, All-get_elem?,
  get_elem?_of_lt, arith, All,
}
use fbf_3ds_servers.Games.{
  GameServer, ffe_game_id, fl_game_id, mk7_game_id, ffe_variants, variant_index, ffe_game, fl_game,
  mk7_game, init_games,
}

-- The index stays inside the table, whatever FFE_VARIANT holds.
variant_index-lt : (getenv : Env) → variant_index getenv < length ffe_variants
unfolding variant_index
variant_index-lt getenv = ground (arith, ffe_variants)

variants_not_control : All (λ g. g.control ≡ false) ffe_variants
unfolding ffe_variants
variants_not_control = ground arith

init_games_of :
    (getenv : Env) (chosen : GameServer)
    → get_elem? ffe_variants (variant_index getenv) ≡ some chosen
    → init_games getenv
      ≡ some (ffe_game getenv (variant_index getenv) chosen ∷ fl_game getenv ∷ mk7_game ∷ [])
unfolding init_games
init_games_of getenv chosen h = rw (h, init_games)

-- The game and ports that an entry stands for.
pub record IsFor (g : GameServer) (id : Str) (auth secure : ℕ) (control : Bool) : Type 0 where
  pub same_id : g.game_id ≡ id
  pub same_auth : g.auth_port ≡ auth
  pub same_secure : g.secure_port ≡ secure
  pub same_control : g.control ≡ control

-- Whatever the environment, start-up does not panic, and the table holds exactly three games:
-- FF Explorers on ports 61001 and 61002, Fantasy Life on 61021 and 61022 and the control game on
-- 61011 and 61012; only the last is marked as control.
pub init_games_lem :
    (getenv : Env)
    → (ffe fl mk7 : GameServer) × (init_games getenv ≡ some (ffe ∷ fl ∷ mk7 ∷ []))
      × IsFor ffe ffe_game_id 61001 61002 false
      × IsFor fl fl_game_id 61021 61022 false
      × IsFor mk7 mk7_game_id 61011 61012 true
unfolding ffe_game fl_game mk7_game
init_games_lem getenv =
    let (chosen, e) =
      get_elem?_of_lt ffe_variants (variant_index getenv) (variant_index-lt getenv) in
    (
      ffe_game getenv (variant_index getenv) chosen,
      fl_game getenv,
      mk7_game,
      init_games_of getenv chosen e,
      record {
        same_id = refl;
        same_auth = refl;
        same_secure = refl;
        same_control =
            All-get_elem? (λ g. g.control ≡ false) ffe_variants (variant_index getenv)
              variants_not_control e;
      },
      record { same_id = refl; same_auth = refl; same_secure = refl; same_control = refl },
      record { same_id = refl; same_auth = refl; same_secure = refl; same_control = refl },
    )
