-- ===== src/Nasc/Handler.antt =====
-- handleAC, gameLogin and proxyUpstream of server/nasc.go. A request takes the table of games, the
-- tokens that were issued, the time and 112 random bytes, and asks Pretendo where it has to.

use fbf_3ds_servers.Base.{
  ℕ, ◌+◌, Bool, ◌||◌, ◌&&◌, Option, none, some, List, [], ◌∷◌, ◌++◌, map, Str, txt, str_beq, str_eq,
  leb, lookup, insert, take, format_uint, Env, env, if◌then◌else◌,
}
use fbf_3ds_servers.Games.{GameServer, game_by_id}
use fbf_3ds_servers.Nasc.Base64.{nin_b64_encode, nin_b64_decode_string}
use fbf_3ds_servers.Nasc.Wire.{Values, set, get, raw_ordered, encode, parse_query}

-- The header fields of a message: a key with its values.
abbrev pub Headers : Type 0
Headers = List (Str × List Str)

-- Header.Add, on keys in their canonical form.
unfoldable pub header_add : Str → Str → Headers → Headers
header_add k v h = elim (lookup k h) [
  | none ↦ insert k (v ∷ []) h
  | some vs ↦ insert k (vs ++ v ∷ []) h
]

pub record Request : Type 0 where
  pub headers : Headers
  -- What reading the body gives; none is an error.
  pub body : Option Str

pub record Response : Type 0 where
  pub status : ℕ
  pub headers : Headers
  pub body : Str

-- Code outside: the hash of crypto/sha256 and the client that talks to Pretendo.
pub record Outside : Type 0 where
  pub sha256_hex : Str → Str
  -- http.NewRequest for a POST to an address: its first header fields.
  pub new_request : Str → Str → Option Headers
  -- upstreamClient.Do: header fields and body of the request.
  pub send : Headers → Str → Option Response

-- issuedTokens: the hash of a token, and the PID it was issued to.
abbrev pub Tokens : Type 0
Tokens = List (Str × Str)

abbrev pub body_limit : ℕ
body_limit = 1048576

-- nascError: `now` is the text of nascDateTime.
unfoldable pub nasc_error : Str → Str → Values
nasc_error now code = set (txt "datetime") (nin_b64_encode now) (
    set (txt "returncd") (if str_beq code (txt "null") then code else nin_b64_encode code)
      (set (txt "retry") (nin_b64_encode (txt "1")) []))

abbrev pub plain_text : Headers
plain_text = (txt "Content-Type", txt "text/plain" ∷ []) ∷ []

-- writeValues
unfoldable pub write_values : Values → Response
write_values v = record { status = 200; headers = plain_text; body = encode v }

-- writeRawOrdered
unfoldable pub write_raw_ordered : List Str → Values → Response
write_raw_ordered order v = record {
  status = 200;
  headers = plain_text;
  body = raw_ordered order v;
}

-- `locator := fmt.Sprintf("%s:%d", …)`
unfoldable pub locator_of : Env → GameServer → Str
locator_of getenv game =
    env getenv (txt "FFE_PUBLIC_HOST") (txt "10.0.0.95") ++ (b':' ∷ format_uint game.auth_port)

-- gameLogin: the answer and the tokens issued since start-up; `random` is none where rand.Read
-- fails.
unfoldable pub game_login :
    Outside → Env → Str → Option Str → GameServer → Str → Tokens → Values × Tokens
game_login out getenv now none game user_id tokens = (nasc_error now (txt "110"), tokens)
game_login out getenv now (some raw) game user_id tokens = (
  set (txt "datetime") (nin_b64_encode now) (
      set (txt "token") (nin_b64_encode raw) (
        set (txt "returncd") (nin_b64_encode (txt "001")) (
          set (txt "retry") (nin_b64_encode (txt "0"))
            (set (txt "locator") (nin_b64_encode (locator_of getenv game)) [])))),
  insert (out.sha256_hex (nin_b64_encode raw)) user_id tokens,
)

-- strings.EqualFold on ASCII text; the keys of a header are ASCII.
abbrev fold : ℕ → ℕ
fold c = if leb b'A' c && leb c b'Z' then c + 32 else c

unfoldable pub equal_fold : Str → Str → Bool
equal_fold s t = str_beq (map fold s) (map fold t)

unfoldable pub add_all : Str → List Str → Headers → Headers
unfolding header_add
add_all k [] h = h
add_all k (v ∷ vs) h = add_all k vs (header_add k v h)

abbrev pub is_own_key : Str → Bool
is_own_key k = equal_fold k (txt "Host") || equal_fold k (txt "Content-Length")

-- The loop over r.Header.
unfoldable pub copy_request_headers : Headers → Headers → Headers
unfolding add_all
copy_request_headers [] h = h
copy_request_headers ((k, vs) ∷ rest) h =
    copy_request_headers rest (if is_own_key k then h else add_all k vs h)

-- The loop over resp.Header.
unfoldable pub copy_headers : Headers → Headers → Headers
unfolding add_all
copy_headers [] h = h
copy_headers ((k, vs) ∷ rest) h = copy_headers rest (add_all k vs h)

-- UpstreamNASC
abbrev pub upstream_nasc : Str
upstream_nasc = txt "https://nasc.pretendo.cc/ac"

-- proxyUpstream
unfoldable pub proxy_upstream : Outside → Str → Headers → Str → Response
proxy_upstream out now headers body = elim (out.new_request upstream_nasc body) [
  | none ↦ write_values (nasc_error now (txt "null"))
  | some fresh ↦ elim (out.send (copy_request_headers headers fresh) body) [
    | none ↦ write_values (nasc_error now (txt "null"))
    | some resp ↦ record {
      status = resp.status;
      headers = copy_headers resp.headers [];
      body = take body_limit resp.body;
    }
  ]
]

abbrev pub login_order : List Str
login_order = txt "locator" ∷ txt "retry" ∷ txt "returncd" ∷ txt "token" ∷ txt "datetime" ∷ []

module _ (out : Outside) (getenv : Env) (games : List GameServer) (now : Str)
    (random : Option Str) where
  -- The switch over the action, for a hosted game.
  unfoldable pub answer_game : GameServer → Str → Str → Tokens → Response × Tokens
  answer_game game action user_id tokens =
      if str_beq action (txt "LOGIN")
      then (
        write_raw_ordered login_order (game_login out getenv now random game user_id tokens).0,
        (game_login out getenv now random game user_id tokens).1,
      )
      else if str_beq action (txt "SVCLOC")
      then (write_values (nasc_error now (txt "110")), tokens)
      else (write_values (nasc_error now (txt "null")), tokens)

  -- From the parsed parameters on; `body` is the text that was read.
  unfoldable pub answer : Headers → Str → Values → Tokens → Response × Tokens
  answer headers body params tokens =
      elim (game_by_id getenv games (nin_b64_decode_string (get params (txt "gameid")))) [
        | none ↦ (proxy_upstream out now headers body, tokens)
        | some game ↦
            answer_game game (nin_b64_decode_string (get params (txt "action")))
              (nin_b64_decode_string (get params (txt "userid"))) tokens
      ]

  -- handleAC: at most 2 ^ 20 bytes of the body are read.
  unfoldable pub handle_ac : Request → Tokens → Response × Tokens
  handle_ac r tokens = elim r.body [
    | none ↦ (write_values (nasc_error now (txt "null")), tokens)
    | some body ↦ elim (parse_query (take body_limit body)) [
      | none ↦ (write_values (nasc_error now (txt "null")), tokens)
      | some params ↦ answer r.headers (take body_limit body) params tokens
    ]
  ]
