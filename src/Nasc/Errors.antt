-- ===== src/Nasc/Errors.antt =====
-- What the refusals of server/nasc.go look like on the wire.
use mathlib.Core.List.{append-nil}
use fbf_3ds_servers.Base.{
  ◌≡◌, refl, ap, ◌∙◌, Option, none, some, List, take, Env, false, inl, inr, Bool-cases, [], ◌++◌,
  Str, txt, str_beq, str_eq, lookup, insert, if◌then◌else◌,
}
use fbf_3ds_servers.Nasc.Base64.{
  digit64, value64, encode, decode_quads, drop_breaks, decode, nin_out, nin_in, nin_b64_encode,
  nin_b64_decode_string,
}
use fbf_3ds_servers.Nasc.Wire
use fbf_3ds_servers.Nasc.Wire.{Values, get, query_escape, parse_query}
use fbf_3ds_servers.Games.{GameServer, game_by_id}
use fbf_3ds_servers.Nasc.Handler.{
  Request, Headers, Tokens, Outside, body_limit, upstream_nasc, nasc_error, write_values,
  copy_request_headers, proxy_upstream, answer_game, answer, handle_ac,
}

-- The return code as nascError sets it.
abbrev pub returncd : Str → Str
returncd code = if str_beq code (txt "null") then code else nin_b64_encode code

decode_one : nin_b64_decode_string (nin_b64_encode (txt "1")) ≡ txt "1"
unfolding digit64 value64 encode decode_quads drop_breaks decode nin_out nin_in nin_b64_encode
    nin_b64_decode_string
decode_one = refl

decode_escaped : nin_b64_decode_string (txt "MQ%2A%2A") ≡ []
unfolding value64 decode_quads drop_breaks decode nin_in nin_b64_decode_string
decode_escaped = refl

escape_one : query_escape (nin_b64_encode (txt "1")) ≡ txt "MQ%2A%2A"
unfolding digit64 encode nin_out nin_b64_encode query_escape
escape_one = refl

-- A refusal on the wire: sorted by key and escaped.
abbrev pub refusal_text : Str → Str → Str
refusal_text now code =
    txt "datetime="
    ++ (query_escape (nin_b64_encode now)
        ++ (txt "&retry=MQ%2A%2A&returncd=" ++ query_escape (returncd code)))

write_values-nasc_error :
    (now code : Str) → (write_values (nasc_error now code)).body ≡ refusal_text now code
unfolding write_values nasc_error Wire.encode get lookup insert
write_values-nasc_error now code = simp (escape_one, append-nil)

retry_field : (now code : Str) → get (nasc_error now code) (txt "retry") ≡ nin_b64_encode (txt "1")
unfolding nasc_error get lookup insert
retry_field now code = refl

module _ (out : Outside) (getenv : Env) (games : List GameServer) (now : Str)
    (random : Option Str) where
  abbrev game_of : Values → Option GameServer
  game_of params = game_by_id getenv games (nin_b64_decode_string (get params (txt "gameid")))

  abbrev action_of : Values → Str
  action_of params = nin_b64_decode_string (get params (txt "action"))

  -- The requests that are refused, and the code: those that cannot be read, those for a hosted game
  -- that are no LOGIN, and those for another game that cannot be passed on.
  pub data Refused (r : Request) : Str → Type 0 where
    unread : r.body ≡ none → Refused r (txt "null")
    unparsed :
        (body : Str)
        → r.body ≡ some body
        → parse_query (take body_limit body) ≡ none
        → Refused r (txt "null")
    no_login :
        (body : Str) (params : Values) (game : GameServer)
        → r.body ≡ some body
        → parse_query (take body_limit body) ≡ some params
        → game_of params ≡ some game
        → str_beq (action_of params) (txt "LOGIN") ≡ false
        → Refused r (if str_beq (action_of params) (txt "SVCLOC") then txt "110" else txt "null")
    no_request :
        (body : Str) (params : Values)
        → r.body ≡ some body
        → parse_query (take body_limit body) ≡ some params
        → game_of params ≡ none
        → out.new_request upstream_nasc (take body_limit body) ≡ none
        → Refused r (txt "null")
    no_upstream :
        (body : Str) (params : Values) (fresh : Headers)
        → r.body ≡ some body
        → parse_query (take body_limit body) ≡ some params
        → game_of params ≡ none
        → out.new_request upstream_nasc (take body_limit body) ≡ some fresh
        → out.send (copy_request_headers r.headers fresh) (take body_limit body) ≡ none
        → Refused r (txt "null")

  refused_lem :
      (r : Request) (tokens : Tokens) {code : Str}
      → Refused r code
      → handle_ac out getenv games now random r tokens
        ≡ (write_values (nasc_error now code), tokens)
  unfolding handle_ac answer answer_game proxy_upstream
  refused_lem r tokens (unread e) = rw (handle_ac, e)
  refused_lem r tokens (unparsed body e f) = rw (handle_ac, e, f)
  refused_lem r tokens (no_login body params game e f g other) =
      elim (Bool-cases (str_beq (action_of params) (txt "SVCLOC"))) [
        | inl locator ↦ rw (handle_ac, e, f, answer, g, answer_game, other, locator)
        | inr neither ↦ rw (handle_ac, e, f, answer, g, answer_game, other, neither)
      ]
  refused_lem r tokens (no_request body params e f g h) =
      rw (handle_ac, e, f, answer, g, proxy_upstream, h)
  refused_lem r tokens (no_upstream body params fresh e f g h k) =
      rw (handle_ac, e, f, answer, g, proxy_upstream, h, k)

  -- A request that cannot be read, one for a hosted game that is no LOGIN, and one for another game
  -- that cannot be passed on, are refused with no token kept: the fields are written sorted by key
  -- and escaped, so that the retry field reads `MQ%2A%2A`, which is malformed as Nintendo's base64,
  -- though it was set to an encoded 1. The code is 110 for an SVCLOC and null for all others.
  pub error_wire :
      (r : Request) (tokens : Tokens) {code : Str}
      → Refused r code
      → ((handle_ac out getenv games now random r tokens).0.body ≡ refusal_text now code)
        × ((handle_ac out getenv games now random r tokens).1 ≡ tokens)
        × (nin_b64_decode_string (txt "MQ%2A%2A") ≡ [])
        × (nin_b64_decode_string (get (nasc_error now code) (txt "retry")) ≡ txt "1")
  error_wire r tokens {code} refused = (
    ap (λ o. o.0.body) (refused_lem r tokens refused) ∙ write_values-nasc_error now code,
    ap (λ o. o.1) (refused_lem r tokens refused),
    decode_escaped,
    ap nin_b64_decode_string (retry_field now code) ∙ decode_one,
  )
