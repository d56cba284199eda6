-- ===== src/Site/Effects.antt =====
-- What a request to one of the two servers can change.

use fbf_3ds_servers.Base.{
  ◌≡◌, ◌≢◌, refl, ◌⊎◌, inl, inr, true, List, map, Str, txt, str_beq, str_beq_iff, Bool-cases,
  has_prefix, All, Env,
}
use fbf_3ds_servers.Games.{GameServer}
use fbf_3ds_servers.Accounts.Store.{AccountTable}
use fbf_3ds_servers.Accounts.Register.{Decoders, State, handle_register}
use fbf_3ds_servers.Accounts.Register
use fbf_3ds_servers.Nasc.Handler.{Outside}
use fbf_3ds_servers.Geo.{Places, Reachable}
use fbf_3ds_servers.Geo.Points.{online_locations_lem}
use fbf_3ds_servers.Metrics.{Floats}
use fbf_3ds_servers.Site.Mux.{
  Handler, ac, register, stats, challenge, root, Routes, nasc_routes, http_routes, Target, handler,
  moved, no_route, target,
}
use fbf_3ds_servers.Site.Handlers.{
  Request, Reply, World, Moment, posted_request, call_handler, serve,
}
use fbf_3ds_servers.Site.Routing.{
  IsOwn, nasc_routes-IsOwn, http_routes-IsOwn, http_routes-IsOther, LeadsTo, target-LeadsTo,
  target-IsOther,
}

module _ (table : AccountTable) (decoders : Decoders) (out : Outside) (places : Places)
    (floats : Floats) (file_server : Str → Request → Reply table decoders out places floats)
    (getenv : Env) (games : List GameServer) (m : Moment table decoders out places floats) where
  abbrev W : Type 0
  W = World table decoders out places floats

  -- What a request to the server with these routes leads to.
  abbrev pub served : Routes → Request → W → W
  served routes r w =
      (serve table decoders out places floats file_server getenv games m routes r w).1

  -- Between two worlds, a request with this method and path has changed no more than it may.
  pub record IsAllowed (r : Request) (w v : W) : Type 0 where
    -- Accounts and their table: a POST to /register.
    pub accounts :
        (v.accounts ≡ w.accounts) ⊎ ((r.method ≡ txt "POST") × (r.path ≡ txt "/register"))
    -- Tokens: /ac and what lies below.
    pub tokens :
        (v.tokens ≡ w.tokens) ⊎ ((r.path ≡ txt "/ac") ⊎ (has_prefix (txt "/ac/") r.path ≡ true))
    -- Locations: /stats, and only as calls of geoLocate do.
    pub geo : (v.geo ≡ w.geo) ⊎ (r.path ≡ txt "/stats")
    pub reachable : Reachable places w.geo → Reachable places v.geo

  same-IsAllowed : (r : Request) (w : W) → IsAllowed r w w
  same-IsAllowed r w = record {
    accounts = inl refl;
    tokens = inl refl;
    geo = inl refl;
    reachable = λ h. h;
  }

  -- A request by another method leaves the store as it is.
  not_posted :
      (r : Register.Request) (s : State table)
      → (str_beq r.method (txt "POST") ≡ true) ⊎ ((handle_register table decoders r s).1 ≡ s)
  unfolding handle_register
  not_posted r s = elim (Bool-cases (str_beq r.method (txt "POST"))) [
    | inl post ↦ inl post
    | inr other ↦ inr (rw other refl)
  ]

  call_handler-IsAllowed :
      (h : Handler) (r : Request) (w : W)
      → LeadsTo h r.path
      → IsAllowed r w
          (call_handler table decoders out places floats file_server getenv games m h r w).1
  unfolding call_handler
  call_handler-IsAllowed ac r w p = record {
    accounts = inl refl;
    tokens = inr p;
    geo = inl refl;
    reachable = λ h. h;
  }
  call_handler-IsAllowed register r w p = record {
    accounts = elim (not_posted (posted_request r) w.accounts) [
      | inl post ↦ inr ((str_beq_iff r.method (txt "POST")).0 post, p)
      | inr same ↦ inl same
    ];
    tokens = inl refl;
    geo = inl refl;
    reachable = λ h. h;
  }
  call_handler-IsAllowed stats r w p = record {
    accounts = inl refl;
    tokens = inl refl;
    geo = inr p;
    reachable = λ h. (online_locations_lem places (map (λ e. e.connections) m.endpoints) h).0;
  }
  call_handler-IsAllowed challenge r w p = same-IsAllowed r w
  call_handler-IsAllowed root r w p = same-IsAllowed r w

  -- The handler that a request reaches decides what it changes.
  by_target :
      (routes : Routes) (r : Request) (w : W) → All IsOwn routes → IsAllowed r w (served routes r w)
  unfolding serve
  by_target routes r w own = go (target routes r.method r.path) refl
    where
      go : (t : Target) → target routes r.method r.path ≡ t → IsAllowed r w (served routes r w)
      go (handler h) e =
          rw (e, served, serve)
            (call_handler-IsAllowed h r w (target-LeadsTo routes r.method r.path own e))
      go (moved path) e = rw (e, served, serve) (same-IsAllowed r w)
      go no_route e = rw (e, served, serve) (same-IsAllowed r w)

  no_tokens :
      (routes : Routes) (r : Request) (w : W)
      → target routes r.method r.path ≢ handler ac
      → (served routes r w).tokens ≡ w.tokens
  unfolding serve call_handler
  no_tokens routes r w other = go (target routes r.method r.path) refl
    where
      go : (t : Target) → target routes r.method r.path ≡ t → (served routes r w).tokens ≡ w.tokens
      go (handler ac) e = absurd (other e)
      go (handler register) e = rw (e, served, serve) refl
      go (handler stats) e = rw (e, served, serve) refl
      go (handler challenge) e = rw (e, served, serve) refl
      go (handler root) e = rw (e, served, serve) refl
      go (moved path) e = rw (e, served, serve) refl
      go no_route e = rw (e, served, serve) refl

  -- A request to the HTTPS server changes accounts and their table only as a POST to /register,
  -- tokens only below /ac, and what is known of locations only at /stats, where it stays what calls
  -- of geoLocate lead to. So does one to the HTTP server, which never changes a token.
  pub serve-IsAllowed :
      (r : Request) (w : W)
      → IsAllowed r w (served nasc_routes r w)
        × IsAllowed r w (served http_routes r w)
        × ((served http_routes r w).tokens ≡ w.tokens)
  serve-IsAllowed r w = (
    by_target nasc_routes r w nasc_routes-IsOwn,
    by_target http_routes r w http_routes-IsOwn,
    no_tokens http_routes r w (target-IsOther http_routes r.method r.path http_routes-IsOther),
  )
