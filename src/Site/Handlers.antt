-- ===== src/Site/Handlers.antt =====
-- A request to one of the two servers, with all that its handlers can change.
use fbf_3ds_servers.Base.{
  ℕ, ◌||◌, Option, none, some, List, [], ◌∷◌, ◌++◌, map, Str, txt, str_beq, Env, env, if◌then◌else◌,
}
use fbf_3ds_servers.Games.{GameServer}
use fbf_3ds_servers.Accounts.Store.{AccountTable}
use fbf_3ds_servers.Accounts.Register
use fbf_3ds_servers.Accounts.Register.{State, Decoders, http_error, handle_register}
use fbf_3ds_servers.Nasc.Handler
use fbf_3ds_servers.Nasc.Handler.{Headers, Outside, Tokens, handle_ac}
use fbf_3ds_servers.Geo
use fbf_3ds_servers.Geo.{Connection, Places, online_locations}
use fbf_3ds_servers.Stats.{NamedEndpoint, StatsResponse, endpoints_snapshot, current_stats}
use fbf_3ds_servers.Metrics.{Floats, Sampler, SysMetrics, current_metrics}
use fbf_3ds_servers.Site.Mux.{
  Handler, ac, register, stats, challenge, root, Routes, handler, moved, no_route, target,
}

-- A request whose body can be read.
pub record Request : Type 0 where
  pub method : Str
  pub path : Str
  pub query : Str
  pub content_type : Str
  pub headers : Headers
  pub body : Str

-- An entry of `secureEndpoints`.
pub record Endpoint : Type 0 where
  pub name : Str
  pub game_id : Str
  pub connections : Option (List Connection)

abbrev pids : Option (List Connection) → Option (List ℕ)
pids none = none
pids (some cs) = some (map (λ c. c.pid) cs)

abbrev pub named : Endpoint → NamedEndpoint
named e = record { name = e.name; game_id = e.game_id; connections = pids e.connections }

abbrev pub content_type_header : Str → Headers
content_type_header value = (txt "Content-Type", value ∷ []) ∷ []

-- The request as handleRegister and handleAC see it.
abbrev pub posted_request : Request → Register.Request
posted_request r = record {
  method = r.method;
  content_type = r.content_type;
  query = r.query;
  body = r.body;
}

abbrev pub ac_request : Request → Handler.Request
ac_request r = record { headers = r.headers; body = some r.body }

module _ (table : AccountTable) (decoders : Decoders) (out : Outside) (places : Places)
    (floats : Floats) where
  open places use {Point}

  -- A text, the JSON of the statistics, dashboardHTML, whatever http.Redirect writes.
  pub data Body : Type 0 where
    text : Str → Body
    json : StatsResponse (SysMetrics floats) Point → Body
    dashboard_html : Body
    note : Body

  pub record Reply : Type 0 where
    pub status : ℕ
    pub headers : Headers
    pub body : Body

  -- What a request can change.
  pub record World : Type 0 where
    pub accounts : State table
    pub tokens : Tokens
    pub geo : Geo.World places

  -- What is as it is while a request is answered: the time, the random bytes, the sampler, the
  -- endpoints, and the answers to the two queries of currentStats.
  pub record Moment : Type 0 where
    pub now : Str
    pub random : Option Str
    pub sampler : Sampler floats
    pub endpoints : List Endpoint
    pub owners : Option (List (Option ℕ))
    pub registered : Option ℕ

  abbrev of_register : Register.Response → Reply
  of_register r = record {
    status = r.status;
    headers = content_type_header r.content_type;
    body = text r.body;
  }

  abbrev of_ac : Handler.Response → Reply
  of_ac r = record { status = r.status; headers = r.headers; body = text r.body }

  -- http.NotFound
  abbrev pub not_found : Reply
  not_found = of_register (http_error (txt "404 page not found") 404)

  -- http.Redirect, with the query of the request.
  abbrev pub redirect : Str → Str → Reply
  redirect path query = record {
    status = 301;
    headers =
        (txt "Location", (if str_beq query [] then path else path ++ (b'?' ∷ query)) ∷ []) ∷ [];
    body = note;
  }

  -- currentStats with its parts.
  unfoldable pub stats_now :
      Moment → Geo.World places → StatsResponse (SysMetrics floats) Point × Geo.World places
  stats_now m w =
      let (points, w') =
        online_locations places (map (λ e. e.connections) (endpoints_snapshot m.endpoints)) w in
      (
        current_stats (current_metrics floats m.sampler) points
            (map named (endpoints_snapshot m.endpoints)) m.owners m.registered,
        w',
      )

  -- handleStats
  unfoldable pub handle_stats : Moment → World → Reply × World
  unfolding stats_now
  handle_stats m w =
      let (response, geo) = stats_now m w.geo in
      (
        record {
          status = 200;
          headers =
              (txt "Content-Type", txt "application/json" ∷ [])
              ∷ (txt "Access-Control-Allow-Origin", txt "*" ∷ [])
              ∷ (txt "Cache-Control", txt "no-store" ∷ [])
              ∷ [];
          body = json response;
        },
        record w { geo = geo },
      )

  -- handleDashboard
  abbrev pub handle_dashboard : Reply
  handle_dashboard = record {
    status = 200;
    headers =
        (txt "Content-Type", txt "text/html; charset=utf-8" ∷ [])
        ∷ (txt "Cache-Control", txt "no-store" ∷ [])
        ∷ [];
    body = dashboard_html;
  }

  -- The handler of `/`.
  unfoldable pub handle_root : Request → Reply
  handle_root r =
      if str_beq r.path (txt "/") || str_beq r.path (txt "/dashboard")
      then handle_dashboard
      else not_found

  -- `file_server` is http.FileServer: what it answers with below a folder.
  module _ (file_server : Str → Request → Reply) (getenv : Env) (games : List GameServer)
      (m : Moment) where
    -- The call of a handler.
    unfoldable pub call_handler : Handler → Request → World → Reply × World
    unfolding handle_stats handle_root
    call_handler ac r w =
        let (reply, tokens) = handle_ac out getenv games m.now m.random (ac_request r) w.tokens in
        (of_ac reply, record w { tokens = tokens })
    call_handler register r w =
        let (reply, accounts) = handle_register table decoders (posted_request r) w.accounts in
        (of_register reply, record w { accounts = accounts })
    call_handler stats r w = handle_stats m w
    call_handler challenge r w =
        (file_server (env getenv (txt "FFE_ACME_WEBROOT") (txt "/opt/ffe/acme")) r, w)
    call_handler root r w = (handle_root r, w)

    -- One request to the server with these routes.
    unfoldable pub serve : Routes → Request → World → Reply × World
    unfolding call_handler
    serve routes r w = elim (target routes r.method r.path) [
      | handler h ↦ call_handler h r w
      | moved path ↦ (redirect path r.query, w)
      | no_route ↦ (not_found, w)
    ]
