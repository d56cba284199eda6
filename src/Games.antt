-- ===== src/Games.antt =====
-- server/games.go: the table of hosted games, built from the environment at start-up, and the
-- lookup by which a login is answered here or passed on.
pub mod Config
pub mod Routing
mod Tests
use fbf_3ds_servers.Base.{
  ℕ, ◌+◌, Bool, true, false, not, ◌||◌, ◌&&◌, Option, none, some, List, [], ◌∷◌, ◌++◌,
  if◌then◌else◌, Str, txt, str_beq, ℤ, pos, negsuc, atoi, Env, env, ltb, length, get_elem?,
  format_uint,
}

-- `LibMajor` and the like are Go ints, and an override may be negative.
pub record GameServer : Type 0 where
  pub name : Str
  pub game_id : Str
  pub access_key : Str
  pub auth_port : ℕ
  pub secure_port : ℕ
  pub lib_major : ℤ
  pub lib_minor : ℤ
  pub lib_patch : ℤ
  pub use_structure_header : Bool
  pub legacy_connection_signature : Bool
  pub control : Bool

abbrev pub ffe_game_id : Str
ffe_game_id = txt "0010E200"

abbrev pub fl_game_id : Str
fl_game_id = txt "0006D200"

abbrev pub mk7_game_id : Str
mk7_game_id = txt "00030600"

-- An entry of the list: the fields that it does not name are zero.
variant : Str → ℕ → ℕ → ℕ → Bool → Bool → GameServer
variant name major minor patch header legacy = record {
  name = name;
  game_id = [];
  access_key = [];
  auth_port = 0;
  secure_port = 0;
  lib_major = pos major;
  lib_minor = pos minor;
  lib_patch = pos patch;
  use_structure_header = header;
  legacy_connection_signature = legacy;
  control = false;
}

-- ffeVariants
unfoldable pub ffe_variants : List GameServer
unfolding variant
ffe_variants =
    variant (txt "2.0.0") 2 0 0 false false
    ∷ variant (txt "2.0.0 hdr") 2 0 0 true false
    ∷ variant (txt "2.1.0 hdr") 2 1 0 true false
    ∷ variant (txt "2.3.0 hdr") 2 3 0 true false
    ∷ variant (txt "3.0.0 hdr") 3 0 0 true false
    ∷ variant (txt "3.6.1 hdr") 3 6 1 true false
    ∷ variant (txt "3.6.9 hdr") 3 6 9 true false
    ∷ variant (txt "3.9.0 hdr") 3 9 0 true false
    ∷ variant (txt "4.0.0 hdr") 4 0 0 true false
    ∷ variant (txt "3.6.1 hdr legacy-sig") 3 6 1 true true
    ∷ variant (txt "2.0.0 legacy-sig") 2 0 0 false true
    ∷ []

-- `if v, err := strconv.Atoi(env("FFE_VARIANT", "0")); err == nil && v >= 0 && v < len(ffeVariants)`
unfoldable pub variant_index : Env → ℕ
unfolding ffe_variants env atoi
variant_index getenv = elim (atoi (env getenv (txt "FFE_VARIANT") (txt "0"))) [
  | none ↦ 0
  | some (pos v) ↦ if ltb v (length ffe_variants) then v else 0
  | some (negsuc _) ↦ 0
]

-- `if v := env(key, ""); v != "" { x = v == "1" }`
override_bool : Env → Str → Bool → Bool
unfolding env
override_bool getenv key old =
    if str_beq (env getenv key []) [] then old else str_beq (env getenv key []) (txt "1")

-- `if v := env(key, ""); v != "" { if n, e := strconv.Atoi(v); e == nil { x = n } }`
override_int : Env → Str → ℤ → ℤ
unfolding env atoi
override_int getenv key old =
    if str_beq (env getenv key []) []
    then old
    else elim (atoi (env getenv key [])) [ none ↦ old | some n ↦ n ]

-- The first part of init: the chosen variant under the console's name, key and ports.
unfoldable pub ffe_game : Env → ℕ → GameServer → GameServer
unfolding override_bool override_int env
ffe_game getenv idx chosen = record chosen {
  name =
      txt "FF Explorers [variant " ++ (format_uint idx ++ (txt ": " ++ (chosen.name ++ txt "]")));
  game_id = ffe_game_id;
  access_key = env getenv (txt "FFE_ACCESS_KEY") (txt "c624986e");
  auth_port = 61001;
  secure_port = 61002;
  use_structure_header = override_bool getenv (txt "FFE_STRUCT_HEADER") chosen.use_structure_header;
  lib_major = override_int getenv (txt "FFE_LIB_MAJOR") chosen.lib_major;
  lib_minor = override_int getenv (txt "FFE_LIB_MINOR") chosen.lib_minor;
  lib_patch = override_int getenv (txt "FFE_LIB_PATCH") chosen.lib_patch;
}

-- The second part: Fantasy Life.
unfoldable pub fl_game : Env → GameServer
unfolding override_bool override_int env
fl_game getenv = record {
  name = txt "Fantasy Life";
  game_id = fl_game_id;
  access_key = env getenv (txt "FL_ACCESS_KEY") (txt "e91e8828");
  auth_port = 61021;
  secure_port = 61022;
  lib_major = override_int getenv (txt "FL_LIB_MAJOR") (pos 3);
  lib_minor = override_int getenv (txt "FL_LIB_MINOR") (pos 5);
  lib_patch = override_int getenv (txt "FL_LIB_PATCH") (pos 0);
  use_structure_header = override_bool getenv (txt "FL_STRUCT_HEADER") true;
  legacy_connection_signature = str_beq (env getenv (txt "FL_LEGACY_SIG") []) (txt "1");
  control = false;
}

unfoldable pub mk7_game : GameServer
mk7_game = record {
  name = txt "Mario Kart 7 (control)";
  game_id = mk7_game_id;
  access_key = txt "6181dff1";
  auth_port = 61011;
  secure_port = 61012;
  lib_major = pos 2;
  lib_minor = pos 0;
  lib_patch = pos 0;
  use_structure_header = false;
  legacy_connection_signature = false;
  control = true;
}

-- init: the table `games`; `none` is the panic of an index out of range.
unfoldable pub init_games : Env → Option (List GameServer)
unfolding variant_index ffe_variants ffe_game fl_game mk7_game
init_games getenv = elim (get_elem? ffe_variants (variant_index getenv)) [
  | none ↦ none
  | some chosen ↦
      some (ffe_game getenv (variant_index getenv) chosen ∷ fl_game getenv ∷ mk7_game ∷ [])
]

-- DisplayName
unfoldable pub display_name : GameServer → Str
display_name g =
    if str_beq g.game_id ffe_game_id
    then txt "Final Fantasy Explorers"
    else if str_beq g.game_id fl_game_id
    then txt "Fantasy Life"
    else g.name

-- enabled
unfoldable pub enabled : Env → GameServer → Bool
unfolding env
enabled getenv g = not g.control || str_beq (env getenv (txt "FFE_CONTROL_MK7") []) (txt "1")

-- gameByID: the first entry with the ID that is enabled; `none` is the nil pointer.
unfoldable pub game_by_id : Env → List GameServer → Str → Option GameServer
unfolding enabled
game_by_id getenv [] id = none
game_by_id getenv (g ∷ gs) id =
    if str_beq g.game_id id && enabled getenv g then some g else game_by_id getenv gs id
