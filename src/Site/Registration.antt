-- ===== src/Site/Registration.antt =====
-- From a registration over the web to a login on a NEX server.
use fbf_3ds_servers.Base.{
  ℕ, ◌≡◌, ◌≢◌, refl, sym, ap, ◌∙◌, inl, inr, List, [], ◌∷◌, All, Str, txt, has_prefix, split,
  trim_space, format_uint, Env,
}
use fbf_3ds_servers.Games.{GameServer}
use fbf_3ds_servers.Accounts.Store.{AccountTable}
use fbf_3ds_servers.Accounts.Register.{Decoders, posted}
use fbf_3ds_servers.Accounts.Login.{account_details_by_pid}
use fbf_3ds_servers.Accounts.Lookups.{register-login}
use fbf_3ds_servers.Nasc.Handler.{Outside}
use fbf_3ds_servers.Geo.{Places}
use fbf_3ds_servers.Metrics.{Floats}
use fbf_3ds_servers.Site.Mux.{
  Routes, nasc_routes, http_routes, register, handler, target, find, clean_path, clean_parts,
  join_parts, matches, ends_in_slash, is_pattern, wants_slash,
}
use fbf_3ds_servers.Site.Handlers.{
  Request, Reply, World, Moment, posted_request, call_handler, serve,
}
use fbf_3ds_servers.Site.Effects.{IsAllowed, served, serve-IsAllowed}

-- The two servers.
pub data Web : Type 0 where
  https : Web
  http : Web

abbrev pub routes_of : Web → Routes
routes_of https = nasc_routes
routes_of http = http_routes

abbrev pub IsRegistration : Request → Type 0
IsRegistration r = (r.method ≡ txt "POST") × (r.path ≡ txt "/register")

module _ (table : AccountTable) (decoders : Decoders) (out : Outside) (places : Places)
    (floats : Floats) (file_server : Str → Request → Reply table decoders out places floats)
    (getenv : Env) (games : List GameServer) where
  abbrev W : Type 0
  W = World table decoders out places floats

  abbrev pub Visit : Type 0
  Visit = Web × Moment table decoders out places floats × Request

  -- What a visit leads to.
  abbrev pub visit : Visit → W → W
  visit (web, m, r) w =
      served table decoders out places floats file_server getenv games m (routes_of web) r w

  abbrev pub visits : List Visit → W → W
  visits [] w = w
  visits (v ∷ vs) w = visits vs (visit v w)

  -- No registration.
  abbrev pub IsPassing : Visit → Type 0
  IsPassing (web, m, r) = IsRegistration r → ⊥

  allowed :
      (web : Web) (m : Moment table decoders out places floats) (r : Request) (w : W)
      → IsAllowed table decoders out places floats file_server getenv games m r w
          (visit (web, m, r) w)
  allowed https m r w =
      (serve-IsAllowed table decoders out places floats file_server getenv games m r w).0
  allowed http m r w =
      (serve-IsAllowed table decoders out places floats file_server getenv games m r w).1

  visit_keeps : (v : Visit) (w : W) → IsPassing v → (visit v w).accounts ≡ w.accounts
  visit_keeps (web, m, r) w other = elim (allowed web m r w).accounts [
    | inl same ↦ same
    | inr h ↦ absurd (other h)
  ]

  visits_keep : (vs : List Visit) (w : W) → All IsPassing vs → (visits vs w).accounts ≡ w.accounts
  visits_keep [] w h = refl
  visits_keep (v ∷ vs) w h = visits_keep vs (visit v w) h.1 ∙ visit_keeps v w h.0

  target_register :
      (web : Web) → target (routes_of web) (txt "POST") (txt "/register") ≡ handler register
  unfolding target find clean_path clean_parts join_parts matches ends_in_slash is_pattern
      wants_slash has_prefix split
  target_register https = refl
  target_register http = refl

  -- A registration reaches handleRegister.
  served_register :
      (web : Web) (m : Moment table decoders out places floats) (r : Request) (w : W)
      → IsRegistration r
      → serve table decoders out places floats file_server getenv games m (routes_of web) r w
        ≡ call_handler table decoders out places floats file_server getenv games m register r w
  unfolding serve
  served_register web m r w (e, f) =
      let reached : target (routes_of web) r.method r.path ≡ handler register =
        ap (λ p. target (routes_of web) p r.path) e
        ∙ ap (target (routes_of web) (txt "POST")) f
        ∙ target_register web in
      rw (reached, serve) refl

  -- A console that posts its PID other than 1 and 2 as plain decimal text, with a password, to
  -- /register of either server, and is answered with status 200, can log in with that password:
  -- without a fixed password, the account that is found by its PID has it. That holds after any
  -- requests to both servers that are no POST to /register.
  pub registered_login :
      (web : Web) (m : Moment table decoders out places floats) (r : Request) (w : W)
      (fields : Str × Str) (n : ℕ) (later : List Visit)
      → IsRegistration r
      → (serve table decoders out places floats file_server getenv games m
          (routes_of web)
          r
          w).0.status
        ≡ 200
      → posted table decoders (posted_request r) ≡ inr fields
      → trim_space fields.0 ≡ format_uint n
      → n ≢ 1
      → n ≢ 2
      → All IsPassing later
      → (account_details_by_pid []
          (visits later (visit (web, m, r) w)).accounts.accounts
          n).password
        ≡ trim_space fields.1
  unfolding call_handler
  registered_login web m r w fields n later here ok read plain one two passing =
      let reached = served_register web m r w here in
      ap (λ s. (account_details_by_pid [] s.accounts n).password)
        (visits_keep later (visit (web, m, r) w) passing ∙ ap (λ o. o.1.accounts) reached)
      ∙ register-login table decoders (posted_request r) w.accounts fields n
          (sym (ap (λ o. o.0.status) reached) ∙ ok) read plain one two
