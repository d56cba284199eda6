-- ===== src/Nasc/Login.antt =====
-- What a console reads in the answer to a login for a hosted game.
use mathlib.Core.Path.{subst}
use fbf_3ds_servers.Base.{
  ◌≤◌, ◌≡◌, refl, sym, ap, ◌∙◌, Option, none, some, List, [], ◌∷◌, map, Str, txt, str_beq,
  str_beq_iff, str_eq, IsFree, All, cut, split, lookup, insert, lookup-insert, take_of_length-le,
  length, Env, env, format_uint, ◌++◌, if◌then◌else◌, arith,
}
use fbf_3ds_servers.Games.{GameServer, game_by_id}
use fbf_3ds_servers.Nasc.Base64.{nin_b64_encode, nin_b64_decode_string}
use fbf_3ds_servers.Nasc.RoundTrip.{
  IsByte, IsRawSafe, nin_b64_decode_string-nin_b64_encode, nin_b64_encode-IsRawSafe,
}
use fbf_3ds_servers.Nasc.Wire.{Values, get, raw_ordered, parse_query}
use fbf_3ds_servers.Nasc.RawWire.{IsWritable, read-raw_ordered}
use fbf_3ds_servers.Nasc.Handler.{
  Request, Outside, Tokens, body_limit, login_order, locator_of, game_login, write_raw_ordered,
  answer_game, answer, handle_ac,
}

-- A pair of the answer as a console reads it: the key, and the decoded value.
abbrev pub read_pair : Option (Str × Str) → Str × Str
read_pair none = ([], [])
read_pair (some (k, v)) = (k, nin_b64_decode_string v)

-- The answer, split at `&` and cut at `=`.
abbrev pub read_answer : Str → List (Str × Str)
read_answer body = map read_pair (map (cut b'=') (split b'&' body))

RawSafe-IsFree : (s : Str) → All IsRawSafe s → IsFree b'&' s
RawSafe-IsFree [] h = tt
RawSafe-IsFree (c ∷ s) h = (h.0.0, RawSafe-IsFree s h.1)

encoded-IsFree : (s : Str) → All IsByte s → IsFree b'&' (nin_b64_encode s)
encoded-IsFree s h = RawSafe-IsFree (nin_b64_encode s) (nin_b64_encode-IsRawSafe s h)

-- The five fields that a console reads, in the order of a real answer.
abbrev pub login_fields : Env → Str → Str → GameServer → List (Str × Str)
login_fields getenv now raw game =
    (
      txt "locator",
      env getenv (txt "FFE_PUBLIC_HOST") (txt "10.0.0.95") ++ (b':' ∷ format_uint game.auth_port),
    )
    ∷ (txt "retry", txt "0")
    ∷ (txt "returncd", txt "001")
    ∷ (txt "token", raw)
    ∷ (txt "datetime", now)
    ∷ []

-- The PID text that a login carries.
abbrev pub user_of : Values → Str
user_of params = nin_b64_decode_string (get params (txt "userid"))

module _ (out : Outside) (getenv : Env) (now raw : Str) (game : GameServer) (user_id : Str)
    (tokens : Tokens) where
  abbrev values : Values
  values = (game_login out getenv now (some raw) game user_id tokens).0

  values-get :
      (get values (txt "locator") ≡ nin_b64_encode (locator_of getenv game))
      × (get values (txt "retry") ≡ nin_b64_encode (txt "0"))
      × (get values (txt "returncd") ≡ nin_b64_encode (txt "001"))
      × (get values (txt "token") ≡ nin_b64_encode raw)
      × (get values (txt "datetime") ≡ nin_b64_encode now)
  unfolding get game_login lookup insert
  values-get = (refl, refl, refl, refl, refl)

  writable :
      (k v : Str)
      → IsFree b'&' k × IsFree b'=' k
      → get values k ≡ nin_b64_encode v
      → All IsByte v
      → IsWritable values k
  writable k v h e b = (h.0, h.1, subst (IsFree b'&') (sym e) (encoded-IsFree v b))

  read_value :
      (k v : Str)
      → get values k ≡ nin_b64_encode v
      → All IsByte v
      → nin_b64_decode_string (get values k) ≡ v
  read_value k v e b = ap nin_b64_decode_string e ∙ nin_b64_decode_string-nin_b64_encode v b

  read_login :
      All IsByte (locator_of getenv game)
      → All IsByte now
      → All IsByte raw
      → read_answer (raw_ordered login_order values) ≡ login_fields getenv now raw game
  unfolding locator_of
  read_login hl hn hr =
      let (g1, g2, g3, g4, g5) = values-get in
      ap (map read_pair) (
        read-raw_ordered values (txt "locator")
          (txt "retry" ∷ txt "returncd" ∷ txt "token" ∷ txt "datetime" ∷ [])
          (
            writable (txt "locator") (locator_of getenv game) (omega arith) g1 hl,
            (
              writable (txt "retry") (txt "0") (omega arith) g2 (omega arith),
              (
                writable (txt "returncd") (txt "001") (omega arith) g3 (omega arith),
                (
                  writable (txt "token") raw (omega arith) g4 hr,
                  (writable (txt "datetime") now (omega arith) g5 hn, tt),
                ),
              ),
            ),
          ))
      ∙ cc (
        read_value (txt "locator") (locator_of getenv game) g1 hl,
        read_value (txt "retry") (txt "0") g2 (omega arith),
        read_value (txt "returncd") (txt "001") g3 (omega arith),
        read_value (txt "token") raw g4 hr,
        read_value (txt "datetime") now g5 hn,
      )

pub handle_ac_read :
    (out : Outside) (getenv : Env) (games : List GameServer) (now : Str) (random : Option Str)
    (r : Request) (tokens : Tokens) (body : Str) (params : Values)
    → r.body ≡ some body
    → length body ≤ body_limit
    → parse_query body ≡ some params
    → handle_ac out getenv games now random r tokens
      ≡ answer out getenv games now random r.headers body params tokens
unfolding handle_ac
handle_ac_read out getenv games now random r tokens body params h fits parsed =
    let whole = take_of_length-le body_limit body fits in rw (h, handle_ac, whole, parsed, whole)

answer_game_login :
    (out : Outside) (getenv : Env) (games : List GameServer) (now : Str) (random : Option Str)
    (game : GameServer) (action user : Str) (tokens : Tokens)
    → action ≡ txt "LOGIN"
    → answer_game out getenv games now random game action user tokens ≡ (
      write_raw_ordered login_order (game_login out getenv now random game user tokens).0,
      (game_login out getenv now random game user tokens).1,
    )
unfolding answer_game
answer_game_login out getenv games now random game action user tokens e =
    rw ((str_beq_iff action (txt "LOGIN")).1 e)

module _ (out : Outside) (getenv : Env) (games : List GameServer) (now : Str) (r : Request) where
  -- A readable LOGIN for a hosted game.
  pub record IsLogin (body : Str) (params : Values) (game : GameServer) : Type 0 where
    pub has_body : r.body ≡ some body
    pub fits : length body ≤ body_limit
    pub parsed : parse_query body ≡ some params
    pub hosted :
        game_by_id getenv games (nin_b64_decode_string (get params (txt "gameid"))) ≡ some game
    pub login : nin_b64_decode_string (get params (txt "action")) ≡ txt "LOGIN"

  handle_ac_login :
      (random : Option Str) (tokens : Tokens) (body : Str) (params : Values) (game : GameServer)
      → IsLogin body params game
      → handle_ac out getenv games now random r tokens ≡ (
        write_raw_ordered login_order
            (game_login out getenv now random game (user_of params) tokens).0,
        (game_login out getenv now random game (user_of params) tokens).1,
      )
  unfolding answer
  handle_ac_login random tokens body params game h =
      handle_ac_read out getenv games now random r tokens body params h.has_body h.fits h.parsed
      ∙ rw (h.hosted, answer)
          (answer_game_login out getenv games now random game
            (nin_b64_decode_string (get params (txt "action"))) (user_of params) tokens h.login)

  -- A readable LOGIN of at most 2 ^ 20 bytes for a hosted game, where the host, the time and the
  -- token are bytes, is answered with status 200 and five fields in the order of a real answer.
  -- Split at `&`, cut at `=` and decoded, they are FFE_PUBLIC_HOST, or 10.0.0.95, with the game's
  -- authentication port, the codes 0 and 001, the random token and the time. The token's hash is
  -- kept with the PID, and every other hash as it was.
  pub login_answer :
      (raw : Str) (tokens : Tokens) (body : Str) (params : Values) (game : GameServer)
      → IsLogin body params game
      → All IsByte (locator_of getenv game)
      → All IsByte now
      → All IsByte raw
      → ((handle_ac out getenv games now (some raw) r tokens).0.status ≡ 200)
        × (read_answer (handle_ac out getenv games now (some raw) r tokens).0.body
            ≡ login_fields getenv now raw game)
        × ((hash : Str)
            → lookup hash (handle_ac out getenv games now (some raw) r tokens).1 ≡ (
                if str_beq (out.sha256_hex (nin_b64_encode raw)) hash
                then some (user_of params)
                else lookup hash tokens))
  unfolding write_raw_ordered game_login
  login_answer raw tokens body params game h hl hn hr =
      let e = handle_ac_login (some raw) tokens body params game h in
      (
        ap (λ o. o.0.status) e,
        ap (λ o. read_answer o.0.body) e
            ∙ read_login out getenv now raw game (user_of params) tokens hl hn hr,
        λ hash.
            ap (λ o. lookup hash o.1) e
            ∙ lookup-insert (out.sha256_hex (nin_b64_encode raw)) hash (user_of params) tokens,
      )
