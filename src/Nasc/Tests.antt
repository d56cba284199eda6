-- ===== src/Nasc/Tests.antt =====
-- The NASC handler at concrete inputs.
use fbf_3ds_servers.Base.{
  ℤ, false, ◌≡◌, refl, none, some, List, [], ◌∷◌, Str, txt, str_beq, str_eq, lookup, insert, cut,
  split, contains, format_uint, atoi, if◌then◌else◌, arith,
}
use fbf_3ds_servers.Games.{GameServer, init_games, game_by_id}
use fbf_3ds_servers.Nasc.Base64.{
  digit64, value64, encode, decode_quads, drop_breaks, decode, nin_out, nin_in, nin_b64_encode,
  nin_b64_decode_string,
}
use fbf_3ds_servers.Nasc.RoundTrip.{nin_b64_decode_string-nin_b64_encode}
use fbf_3ds_servers.Nasc.Wire
use fbf_3ds_servers.Nasc.Wire.{get, raw_ordered, query_escape, parse_query}
use fbf_3ds_servers.Nasc.Handler.{
  Request, Response, Outside, Tokens, is_own_key, header_add, equal_fold, copy_request_headers,
  copy_headers, proxy_upstream, nasc_error, write_values, write_raw_ordered, locator_of, game_login,
  answer_game, answer, handle_ac,
}
use fbf_3ds_servers.Nasc.Errors.{refusal_text, Refused, no_login, error_wire}
use fbf_3ds_servers.Nasc.Login.{read_answer, login_fields, IsLogin, login_answer, user_of}
use fbf_3ds_servers.Nasc.Proxy.{values_of, found, IsForOther, proxy_relays}

base64 : Unit {0}
unfolding digit64 value64 encode decode_quads drop_breaks decode nin_out nin_in nin_b64_encode
    nin_b64_decode_string
base64 = tt

base64_tests :
    (nin_b64_encode (txt "LOGIN") ≡ txt "TE9HSU4*")
    × (nin_b64_encode (251 ∷ 255 ∷ []) ≡ txt ".-8*")
    × (nin_b64_decode_string (txt "TE9HSU4*") ≡ txt "LOGIN")
    × (nin_b64_decode_string (txt "TE9HSU4") ≡ [])
unfolding base64
base64_tests = (refl, refl, refl, refl)

nin_b64_decode_string-nin_b64_encode_example :
    nin_b64_decode_string (nin_b64_encode (txt "001")) ≡ txt "001"
nin_b64_decode_string-nin_b64_encode_example =
    nin_b64_decode_string-nin_b64_encode (txt "001") (omega arith)

program : Unit {0}
unfolding base64 handle_ac answer answer_game game_login locator_of write_raw_ordered write_values
    nasc_error proxy_upstream copy_headers copy_request_headers equal_fold header_add get
    raw_ordered parse_query Wire.encode init_games game_by_id lookup insert cut split contains
    format_uint atoi
program = tt

error_test :
    (write_values (nasc_error (txt "20240408120000") (txt "110"))).body
    ≡ txt "datetime=MjAyNDA0MDgxMjAwMDA%2A&retry=MQ%2A%2A&returncd=MTEw"
unfolding program
error_test = refl

parse_test :
    parse_query (txt "gameid=MDAxMEUyMDA%2A&action=TE9HSU4*&&x")
    ≡ some (
        (txt "gameid", txt "MDAxMEUyMDA*" ∷ [])
        ∷ (txt "action", txt "TE9HSU4*" ∷ [])
        ∷ (txt "x", [] ∷ [])
        ∷ [])
unfolding program
parse_test = refl

abbrev unset : Str → Str
unset k = []

abbrev echo : Outside
echo = record {
  sha256_hex = λ s. s;
  new_request = λ url body. some [];
  send = λ h body. some (record { status = 203; headers = h; body = body });
}

abbrev ffe : GameServer
ffe = record {
  name = txt "FFE";
  game_id = txt "0010E200";
  access_key = [];
  auth_port = 61001;
  secure_port = 61002;
  lib_major = ℤ.pos 2;
  lib_minor = ℤ.pos 0;
  lib_patch = ℤ.pos 0;
  use_structure_header = false;
  legacy_connection_signature = false;
  control = false;
}

abbrev login_body : Str
login_body = txt "action=TE9HSU4*&gameid=MDAxMEUyMDA*&userid=MTkwMA**"

abbrev login_params : Wire.Values
login_params =
    (txt "action", txt "TE9HSU4*" ∷ [])
    ∷ (txt "gameid", txt "MDAxMEUyMDA*" ∷ [])
    ∷ (txt "userid", txt "MTkwMA**" ∷ [])
    ∷ []

abbrev login_request : Request
login_request = record { headers = []; body = some login_body }

request-IsLogin :
    IsLogin echo unset (ffe ∷ []) (txt "20240408120000") login_request login_body login_params ffe
unfolding program
request-IsLogin = record {
  has_body = refl;
  fits = omega arith;
  parsed = refl;
  hosted = refl;
  login = refl;
}

abbrev answered : Response
answered =
    (handle_ac echo unset (ffe ∷ []) (txt "20240408120000") (some (txt "abc")) login_request []).0

login_answer_example :
    (answered.status ≡ 200)
    × (read_answer answered.body ≡ login_fields unset (txt "20240408120000") (txt "abc") ffe)
    × ((hash : Str)
        → lookup hash
            (handle_ac echo unset
              (ffe ∷ [])
              (txt "20240408120000")
              (some (txt "abc"))
              login_request
              []).1
          ≡ (if str_beq (nin_b64_encode (txt "abc")) hash
              then some (user_of login_params)
              else lookup hash []))
unfolding program
login_answer_example =
    login_answer echo unset (ffe ∷ []) (txt "20240408120000") login_request (txt "abc") []
      login_body login_params ffe request-IsLogin (omega arith) (omega arith) (omega arith)

abbrev start_games : List GameServer
start_games = elim (init_games unset) [ none ↦ [] | some gs ↦ gs ]

abbrev other_body : Str
other_body = txt "action=TE9HSU4*&gameid=MDAwMDMyMDA*"

abbrev other_request : Request
other_request = record {
  headers = (txt "Host", txt "h" ∷ []) ∷ (txt "X-A", txt "1" ∷ txt "2" ∷ []) ∷ [];
  body = some other_body;
}

abbrev other_params : Wire.Values
other_params = (txt "action", txt "TE9HSU4*" ∷ []) ∷ (txt "gameid", txt "MDAwMDMyMDA*" ∷ []) ∷ []

abbrev other_resp : Response
other_resp = record {
  status = 203;
  headers = (txt "X-A", txt "1" ∷ txt "2" ∷ []) ∷ [];
  body = other_body;
}

other-IsForOther :
    IsForOther echo unset start_games
      (txt "n")
      none
      other_request
      other_body
      other_params
      other_resp
unfolding program
other-IsForOther = record {
  started = refl;
  has_body = refl;
  fits = omega arith;
  parsed = refl;
  other = refl;
  built = refl;
  sent = refl;
  resp_fits = omega arith;
}

abbrev passed : Response × Tokens
passed = handle_ac echo unset start_games (txt "n") none other_request []

proxy_relays_example :
    (passed.1 ≡ [])
    × (passed.0.status ≡ 203)
    × (passed.0.body ≡ other_body)
    × ((k : Str) → found (lookup k passed.0.headers) ≡ values_of k other_resp.headers)
    × ((k : Str)
        → found (lookup k (copy_request_headers other_request.headers []))
          ≡ (if is_own_key k then [] else values_of k other_request.headers))
proxy_relays_example =
    proxy_relays echo unset start_games (txt "n") none other_request other_body other_params
      other_resp [] other-IsForOther

-- An SVCLOC for the hosted game.
abbrev locator_body : Str
locator_body = txt "action=U1ZDTE9D&gameid=MDAxMEUyMDA*"

abbrev locator_params : Wire.Values
locator_params = (txt "action", txt "U1ZDTE9D" ∷ []) ∷ (txt "gameid", txt "MDAxMEUyMDA*" ∷ []) ∷ []

abbrev locator_request : Request
locator_request = record { headers = []; body = some locator_body }

locator-Refused : Refused echo unset (ffe ∷ []) (txt "n") none locator_request (txt "110")
unfolding program
locator-Refused = no_login locator_body locator_params ffe refl refl refl refl

error_wire_example :
    ((handle_ac echo unset (ffe ∷ []) (txt "n") none locator_request []).0.body
      ≡ refusal_text (txt "n") (txt "110"))
    × ((handle_ac echo unset (ffe ∷ []) (txt "n") none locator_request []).1 ≡ [])
    × (nin_b64_decode_string (txt "MQ%2A%2A") ≡ [])
    × (nin_b64_decode_string (get (nasc_error (txt "n") (txt "110")) (txt "retry")) ≡ txt "1")
error_wire_example =
    error_wire echo unset (ffe ∷ []) (txt "n") none locator_request [] {code = txt "110"}
      locator-Refused
