-- ===== src/Startup.antt =====
-- server/main.go: which servers main starts, and how startAuthenticationServer and
-- startSecureServer set them up. The NEX library carries the settings out.
pub mod Ports
pub mod Callbacks
pub mod Friends
pub mod Race
mod Tests
use fbf_3ds_servers.Base.{
  ℕ, ◌%◌, Bool, true, false, not, ◌&&◌, Option, none, some, List, [], ◌∷◌, Str, txt, str_beq, split,
  trim_space, ℤ, pos, atoi, Env, env, if◌then◌else◌,
}
use fbf_3ds_servers.Games.{GameServer, enabled, display_name}
use fbf_3ds_servers.Relay.{RelayManager, new_relay_manager, set_hosts}
use fbf_3ds_servers.Browse.{parse_attr_indices}

pub record Version : Type 0 where
  pub major : ℤ
  pub minor : ℤ
  pub patch : ℤ

-- The settings that both servers of a game have.
pub record Settings : Type 0 where
  pub version : Version
  pub structure_header : Bool
  pub legacy_connection_signature : Bool
  pub access_key : Str
  -- KerberosTicketVersion is 1, and not the library's own.
  pub ticket_v1 : Bool

abbrev game_version : GameServer → Version
game_version g = record { major = g.lib_major; minor = g.lib_minor; patch = g.lib_patch }

unfoldable pub settings : Env → GameServer → Settings
settings getenv g = record {
  version = game_version g;
  structure_header = g.use_structure_header;
  legacy_connection_signature = g.legacy_connection_signature;
  access_key = g.access_key;
  ticket_v1 = str_beq (env getenv (txt "FFE_TICKET_V1") []) (txt "1");
}

-- `secureURL`, the address that a console is sent on to.
pub record SecureUrl : Type 0 where
  pub address : Str
  pub port_number : ℕ
  pub connection_id : ℕ
  pub principal_id : ℕ
  pub stream_id : ℕ

-- The conversion to uint16 keeps the low 16 bits.
unfoldable pub secure_url : Env → GameServer → SecureUrl
secure_url getenv g = record {
  address = env getenv (txt "FFE_SECURE_HOST") (txt "127.0.0.1");
  port_number = g.secure_port % 65536;
  connection_id = 1;
  principal_id = 2;
  stream_id = 1;
}

pub record AuthServer : Type 0 where
  pub common : Settings
  pub insecure_login : Bool
  pub secure_station_url : SecureUrl
  pub listen : ℕ

-- startAuthenticationServer
unfoldable pub start_authentication_server : Env → GameServer → AuthServer
unfolding settings secure_url
start_authentication_server getenv g = record {
  common = settings getenv g;
  insecure_login = str_beq (getenv (txt "FFE_INSECURE_LOGIN")) (txt "1");
  secure_station_url = secure_url getenv g;
  listen = g.auth_port;
}

-- The handlers that are replaced: that of browsing, with its wildcards, and the two of the relay.
pub record Matchmaking : Type 0 where
  pub stable_browse : Option (List ℤ)
  pub transparent_relay : Bool

unfoldable pub matchmaking : Env → Matchmaking
matchmaking getenv = record {
  stable_browse =
      if str_beq (getenv (txt "FFE_BROWSE_ALL")) (txt "1")
      then some (parse_attr_indices (env getenv (txt "FFE_BROWSE_WILDCARD_ATTRS") (txt "4")))
      else none;
  transparent_relay = str_beq (getenv (txt "FFE_RELAY")) (txt "1");
}

-- The override of the library version for matchmaking.
unfoldable pub match_making_version : Env → Option Version
match_making_version getenv =
    if str_beq (env getenv (txt "FFE_MM_MINOR") []) []
    then none
    else elim (atoi (env getenv (txt "FFE_MM_MINOR") [])) [
      | none ↦ none
      | some mn ↦ some (record { major = pos 3; minor = mn; patch = pos 0 })
    ]

pub record SecureServer : Type 0 where
  pub common : Settings
  pub dashboard_name : Str
  pub game_id : Str
  pub match_making : Option Version
  -- none without a database.
  pub manager : Option Matchmaking
  pub listen : ℕ

-- startSecureServer, without its part in the relay's manager.
unfoldable pub start_secure_server : Env → Bool → GameServer → SecureServer
unfolding settings match_making_version matchmaking
start_secure_server getenv database g = record {
  common = settings getenv g;
  dashboard_name = display_name g;
  game_id = g.game_id;
  match_making = match_making_version getenv;
  manager = if database then some (matchmaking getenv) else none;
  listen = g.secure_port;
}

-- The loop over FFE_RELAY_IPS.
unfoldable pub pool_of : List Str → List Str
pool_of [] = []
pool_of (p ∷ parts) =
    let rest = pool_of parts in if str_beq (trim_space p) [] then rest else trim_space p ∷ rest

abbrev pub or_new : Env → Option RelayManager → RelayManager
or_new getenv none = new_relay_manager (env getenv (txt "FFE_PUBLIC_HOST") (txt "10.0.0.95"))
or_new getenv (some rm) = rm

-- What startSecureServer does to `relay`.
unfoldable pub start_relay : Env → Bool → Option RelayManager → Option RelayManager
unfolding pool_of
start_relay getenv database relay =
    if database && str_beq (getenv (txt "FFE_RELAY")) (txt "1")
    then if str_beq (getenv (txt "FFE_RELAY_IPS")) []
      then some (or_new getenv relay)
      else some
          (set_hosts (pool_of (split b',' (getenv (txt "FFE_RELAY_IPS")))) (or_new getenv relay))
    else relay

-- What main starts in the background.
pub data Task : Type 0 where
  nasc : Task
  http_register : Task
  authentication : AuthServer → Task
  secure : SecureServer → Task

-- The loop over the games.
unfoldable pub game_tasks : Env → Bool → List GameServer → List Task
unfolding start_authentication_server start_secure_server
game_tasks getenv database [] = []
game_tasks getenv database (g ∷ games) =
    let rest = game_tasks getenv database games in
    if not (enabled getenv g)
    then rest
    else authentication (start_authentication_server getenv g)
      ∷ secure (start_secure_server getenv database g)
      ∷ rest

-- main, from `logf("stub NEX server starting")` on.
unfoldable pub main_tasks : Env → Bool → List GameServer → List Task
unfolding game_tasks
main_tasks getenv database games = nasc ∷ http_register ∷ game_tasks getenv database games
