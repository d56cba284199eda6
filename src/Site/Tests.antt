-- ===== src/Site/Tests.antt =====
-- Requests at concrete paths, the two set-ups and the texts of the log.

use fbf_3ds_servers.Base.{
  str_ne, List, arith, ℕ, ◌≡◌, refl, false, not, Option, none, some, [], ◌∷◌, Str, txt, str_eq,
  nat_eq, nat_beq, lookup, insert, has_prefix, split, env, trim_space, format_uint, str_beq,
  contains, parse_uint, parse_digits, if◌then◌else◌,
}
use fbf_3ds_servers.Accounts.Store.{AccountTable, set, save_account}
use fbf_3ds_servers.Accounts.Register.{Decoders, posted, refused, store, handle_register}
use fbf_3ds_servers.Nasc.Base64.{
  nin_b64_decode_string, decode, decode_quads, drop_breaks, nin_in, value64,
}
use fbf_3ds_servers.Nasc.Wire.{get}
use fbf_3ds_servers.Nasc.Handler.{Outside}
use fbf_3ds_servers.Geo
use fbf_3ds_servers.Geo.{
  Places, online_locations, points_of, all_ips, add_hosts, add_host, ask, geo_locate,
}
use fbf_3ds_servers.Metrics.{Floats, start}
use fbf_3ds_servers.Site.Mux.{
  Routes, handler, moved, no_route, ac, register, challenge, root, nasc_routes, http_routes,
  ends_in_slash, matches, find, clean_parts, join_parts, clean_path, is_pattern, wants_slash,
  target,
}
use fbf_3ds_servers.Site.Handlers.{
  Request, Reply, World, Moment, stats_now, handle_stats, handle_root, not_found, call_handler,
  serve,
}
use fbf_3ds_servers.Site.Tls.{Server, get_certificate, start_nasc_server, start_http_register}
use fbf_3ds_servers.Site.Log.{
  before_last, client_ip, summary_of, summarise, hex_word, version_name, version_names, suite_names,
  hex_bytes, hex_id, log_rmc, logf,
}
use fbf_3ds_servers.Accounts.Login.{account_details_by_pid}
use fbf_3ds_servers.Site.Registration.{https, http, Visit, visit, visits, registered_login}
use fbf_3ds_servers.Site.Effects.{IsAllowed, served, serve-IsAllowed}

routing : Unit {0}
unfolding ends_in_slash matches find clean_parts join_parts clean_path is_pattern wants_slash target
    has_prefix split
routing = tt

target_tests :
    (target nasc_routes (txt "POST") (txt "/ac") ≡ handler ac)
    × (target nasc_routes (txt "POST") (txt "/ac/x") ≡ handler ac)
    × (target nasc_routes (txt "POST") (txt "/register") ≡ handler register)
    × (target nasc_routes (txt "GET") (txt "/registers") ≡ handler root)
    × (target nasc_routes (txt "GET") (txt "/a/../stats") ≡ moved (txt "/stats"))
    × (target nasc_routes (txt "CONNECT") (txt "//stats") ≡ handler root)
    × (target http_routes (txt "GET") (txt "/ac") ≡ handler root)
    × (target http_routes (txt "GET") (txt "/.well-known/acme-challenge/t") ≡ handler challenge)
    × (target http_routes (txt "GET") (txt "/.well-known/acme-challenge")
        ≡ moved (txt "/.well-known/acme-challenge/"))
    × (target http_routes (txt "CONNECT") (txt "host:443") ≡ no_route)
unfolding routing
target_tests = (refl, refl, refl, refl, refl, refl, refl, refl, refl, refl)

log_texts : Unit {0}
unfolding before_last client_ip summary_of summarise hex_word version_name version_names suite_names
    hex_bytes hex_id log_rmc logf get lookup nin_b64_decode_string trim_space format_uint decode
    decode_quads drop_breaks nin_in value64
log_texts = tt

log_tests :
    (client_ip (txt "[::1]:443") ≡ txt "[::1]")
    × (client_ip (txt ":443") ≡ txt ":443")
    × (version_names (0x0301 ∷ 0x0300 ∷ []) ≡ txt "TLS1.0" ∷ txt "0x0300" ∷ [])
    × (log_rmc
          (txt "SEC:X")
          (record { protocol_id = 0x0A; method_id = 2; parameters = 1 ∷ 0xAB ∷ [] })
        ≡ txt "*** RMC *** SEC:X  protocol=0x0A (TicketGranting)  method=2  params=2 bytes"
          ∷ txt "       RAW PARAMS: 01ab"
          ∷ [])
    × (summarise ((txt "gameid", txt "MDAxMEUyMDA*" ∷ []) ∷ []) ≡ txt "gameid=0010E200")
unfolding log_texts
log_tests = (refl, refl, refl, refl, refl)

-- Code outside at its plainest: no statement succeeds, a form has the query as its PID and the body
-- as its password, nothing is sent, and locations are numbers.
abbrev no_table : AccountTable
no_table = record { Db = ℕ; create = λ d. d; upsert = λ k v d. none; select = λ d. none }

abbrev plain : Decoders
plain = record {
  decode_json = λ s. none;
  parse_form = λ limit r. some (λ k. if str_beq k (txt "pid") then r.query else r.body);
}

abbrev nothing_out : Outside
nothing_out = record { sha256_hex = λ s. s; new_request = λ url body. none; send = λ h body. none }

abbrev flat : Places
flat = record {
  Point = ℕ;
  zero_point = 0;
  is_place = λ p. not (nat_beq p 0);
  snap = λ p. p;
  Ip = Str;
  parse_ip = some;
  is_private = λ ip. false;
  is_loopback = λ ip. false;
}

abbrev pairs : Floats
pairs = record { F = ℕ × ℕ; zero_float = (0, 0); usage = λ d e. (d, e); rate = λ b t. (b, t) }

abbrev quiet : Moment no_table plain nothing_out flat pairs
quiet = record {
  now = txt "20260101000000";
  random = none;
  sampler = start pairs;
  endpoints =
      record {
        name = txt "X";
        game_id = txt "1";
        connections = some (record { pid = 1900; host = some (txt "198.51.100.7") } ∷ []);
      }
      ∷ [];
  owners = none;
  registered = none;
}

abbrev fresh : World no_table plain nothing_out flat pairs
fresh = record { accounts = record { accounts = []; db = none }; tokens = []; geo = Geo.start flat }

abbrev request : Str → Str → Request
request method path = record {
  method = method;
  path = path;
  query = txt "1900";
  content_type = [];
  headers = [];
  body = txt "secret";
}

abbrev no_files : Str → Request → Reply no_table plain nothing_out flat pairs
no_files folder r = not_found no_table plain nothing_out flat pairs

abbrev after : Routes → Request → World no_table plain nothing_out flat pairs
after routes r =
    served no_table plain nothing_out flat pairs no_files (λ k. []) [] quiet routes r fresh

serving : Unit {0}
unfolding routing stats_now handle_stats handle_root call_handler serve posted refused store
    handle_register set save_account contains parse_uint parse_digits trim_space insert lookup
    online_locations points_of all_ips add_hosts add_host ask geo_locate
serving = tt

serve_tests :
    ((after nasc_routes (request (txt "POST") (txt "/register"))).accounts.accounts
      ≡ (txt "1900", txt "secret") ∷ [])
    × ((after http_routes (request (txt "GET") (txt "/register"))).accounts.accounts ≡ [])
    × ((after http_routes (request (txt "GET") (txt "/stats"))).geo.running
        ≡ txt "198.51.100.7" ∷ [])
unfolding serving
serve_tests = (refl, refl, refl)

abbrev seen : Request
seen = request (txt "POST") (txt "/register")

serve-IsAllowed_example :
    IsAllowed no_table plain nothing_out flat pairs no_files
      (λ k. [])
      []
      quiet
      seen
      fresh
      (after nasc_routes seen)
    × IsAllowed no_table plain nothing_out flat pairs no_files
        (λ k. [])
        []
        quiet
        seen
        fresh
        (after http_routes seen)
    × ((after http_routes seen).tokens ≡ fresh.tokens)
serve-IsAllowed_example =
    serve-IsAllowed no_table plain nothing_out flat pairs no_files (λ k. []) [] quiet seen fresh

-- The statistics are asked for later.
abbrev later : List (Visit no_table plain nothing_out flat pairs no_files (λ k. []) [])
later = (http, quiet, request (txt "GET") (txt "/stats")) ∷ []

registered_login_example :
    (account_details_by_pid []
      (visits no_table plain nothing_out flat pairs no_files
        (λ k. [])
        []
        later
        (visit no_table plain nothing_out flat pairs no_files
          (λ k. [])
          []
          (https, quiet, seen)
          fresh)).accounts.accounts
      1900).password
    ≡ trim_space (txt "secret")
unfolding serving format_uint
registered_login_example =
    registered_login no_table plain nothing_out flat pairs no_files (λ k. []) [] https quiet seen
      fresh (txt "1900", txt "secret") 1900 later (refl, refl) refl refl refl (omega arith)
      (omega arith) ((λ h. str_ne (txt "GET") (txt "POST") refl h.0), tt)

abbrev own_only : Str → Str → Option ℕ
own_only cert key = if str_beq cert (txt "certs/nasc.crt") then some 1 else none

abbrev chosen : Option (Server ℕ) → Str → Option ℕ
chosen none name = none
chosen (some s) name = elim s.certificate [ none ↦ none | some c ↦ some (c name) ]

certificate_tests :
    (chosen (start_nasc_server own_only (λ k. [])) [] ≡ some 1)
    × (chosen (start_nasc_server own_only (λ k. [])) (txt "ffe.freakybigfoot.com") ≡ some 1)
    × (chosen
          (start_nasc_server
            (λ c k. some (if str_beq c (txt "certs/nasc.crt") then 1 else 2))
            (λ k. []))
          (txt "ffe.freakybigfoot.com")
        ≡ some 2)
    × ((start_http_register own_only (λ k. [])).addr ≡ txt ":80")
unfolding get_certificate start_nasc_server start_http_register env
certificate_tests = (refl, refl, refl, refl)
