-- ===== src/Nasc/Proxy.antt =====
-- What the proxy passes on: the body of a request for another game and its header fields but Host
-- and Content-Length. The method and the query of the request are not passed on.
use mathlib.Core.Option
use mathlib.Core.Path.{ap₂}
use mathlib.Core.List.{append-nil, append_assoc}
use fbf_3ds_servers.Base.{
  ◌≤◌, ◌≡◌, refl, sym, ap, ◌∙◌, inl, inr, Option, none, some, List, [], ◌∷◌, ◌++◌, Str, txt,
  str_beq, str_beq_iff, str_eq, lookup, lookup-insert, take_of_length-le, length, Env,
  if◌then◌else◌, Option-cases, arith,
}
use fbf_3ds_servers.Games.{GameServer, game_by_id, init_games}
use fbf_3ds_servers.Games.Routing.{hosted_port, game_by_id-hosted}
use fbf_3ds_servers.Nasc.Base64.{nin_b64_decode_string}
use fbf_3ds_servers.Nasc.Wire.{Values, get, parse_query}
use fbf_3ds_servers.Nasc.Handler.{
  Headers, header_add, add_all, Request, Response, Outside, Tokens, body_limit, upstream_nasc,
  is_own_key, copy_request_headers, copy_headers, proxy_upstream, answer, handle_ac,
}
use fbf_3ds_servers.Nasc.Login.{handle_ac_read}

-- All values of a key, in their order.
abbrev pub values_of : Str → Headers → List Str
values_of k [] = []
values_of k ((j, vs) ∷ h) = if str_beq j k then vs ++ values_of k h else values_of k h

-- What a lookup of the key gives; a key that is absent has no values.
abbrev pub found : Option (List Str) → List Str
found none = []
found (some vs) = vs

found_nil : (k : Str) → found (lookup {V = List Str} k []) ≡ []
unfolding lookup
found_nil k = refl

found-header_add :
    (k j v : Str) (h : Headers)
    → found (lookup j (header_add k v h))
      ≡ (if str_beq k j then found (lookup j h) ++ v ∷ [] else found (lookup j h))
unfolding header_add
found-header_add k j v h = elim (Option-cases (lookup k h)) [
  | inl absent ↦ ground (arith, lookup-insert k j (v ∷ []) h, str_beq_iff k j)
  | inr (vs, present) ↦ ground (arith, lookup-insert k j (vs ++ v ∷ []) h, str_beq_iff k j)
]

found-add_all :
    (k j : Str) (vs : List Str) (h : Headers)
    → found (lookup j (add_all k vs h))
      ≡ (if str_beq k j then found (lookup j h) ++ vs else found (lookup j h))
unfolding add_all
found-add_all k j [] h = ground (arith, append-nil (found (lookup j h)))
found-add_all k j (v ∷ vs) h = ground (
  arith,
  found-add_all k j vs (header_add k v h),
  found-header_add k j v h,
  append_assoc (found (lookup j h)) (v ∷ []) vs,
)

found-copy_headers :
    (j : Str) (m h : Headers)
    → found (lookup j (copy_headers m h)) ≡ found (lookup j h) ++ values_of j m
unfolding copy_headers
found-copy_headers j [] h = sym (append-nil _)
found-copy_headers j ((k, vs) ∷ m) h = ground (
  arith,
  found-copy_headers j m (add_all k vs h),
  found-add_all k j vs h,
  append_assoc (found (lookup j h)) vs (values_of j m),
)

found-copy_request_headers :
    (j : Str) (m h : Headers)
    → found (lookup j (copy_request_headers m h))
      ≡ (if is_own_key j then found (lookup j h) else found (lookup j h) ++ values_of j m)
unfolding copy_request_headers
found-copy_request_headers j [] h = ground (arith, append-nil (found (lookup j h)))
found-copy_request_headers j ((k, vs) ∷ m) h = ground (
  arith,
  found-copy_request_headers j m h,
  found-copy_request_headers j m (add_all k vs h),
  found-add_all k j vs h,
  append_assoc (found (lookup j h)) vs (values_of j m),
  str_beq_iff k j,
)

map-none {ℓ κ} :
    {A : Type ℓ} {B : Type κ} (f : A → B) (o : Option A) → Option.map f o ≡ none → o ≡ none
map-none f none h = refl
map-none f (some a) h = cc

module _ (out : Outside) (getenv : Env) (games : List GameServer) (now : Str) (random : Option Str)
    (r : Request) (body : Str) (params : Values) (resp : Response) where
  -- A readable request for a game that is not hosted, which Pretendo answers.
  pub record IsForOther : Type 0 where
    pub started : init_games getenv ≡ some games
    pub has_body : r.body ≡ some body
    pub fits : length body ≤ body_limit
    pub parsed : parse_query body ≡ some params
    pub other : hosted_port getenv (nin_b64_decode_string (get params (txt "gameid"))) ≡ none
    pub built : out.new_request upstream_nasc body ≡ some []
    pub sent : out.send (copy_request_headers r.headers []) body ≡ some resp
    pub resp_fits : length resp.body ≤ body_limit

  not_hosted :
      IsForOther
      → game_by_id getenv games (nin_b64_decode_string (get params (txt "gameid"))) ≡ none
  not_hosted h =
      let port =
        game_by_id-hosted getenv games (nin_b64_decode_string (get params (txt "gameid")))
          h.started in
      map-none _ _ (port ∙ h.other)

  handle_ac_other :
      (tokens : Tokens)
      → IsForOther
      → handle_ac out getenv games now random r tokens ≡ (
        record { status = resp.status; headers = copy_headers resp.headers []; body = resp.body },
        tokens,
      )
  unfolding answer proxy_upstream
  handle_ac_other tokens h =
      handle_ac_read out getenv games now random r tokens body params h.has_body h.fits h.parsed
      ∙ rw (
        not_hosted h,
        answer,
        h.built,
        proxy_upstream,
        h.sent,
        take_of_length-le body_limit resp.body h.resp_fits,
      )

  -- A readable request of at most 2 ^ 20 bytes for a game that is not hosted, from which a request
  -- with no header fields of its own is built, and which Pretendo answers with at most 2 ^ 20
  -- bytes, is sent on with its body unchanged and with the values of every header field but Host
  -- and Content-Length. The console gets Pretendo's status, body and header fields. No token is
  -- issued.
  pub proxy_relays :
      (tokens : Tokens)
      → IsForOther
      → ((handle_ac out getenv games now random r tokens).1 ≡ tokens)
        × ((handle_ac out getenv games now random r tokens).0.status ≡ resp.status)
        × ((handle_ac out getenv games now random r tokens).0.body ≡ resp.body)
        × ((k : Str)
            → found (lookup k (handle_ac out getenv games now random r tokens).0.headers)
              ≡ values_of k resp.headers)
        × ((k : Str)
            → found (lookup k (copy_request_headers r.headers []))
              ≡ (if is_own_key k then [] else values_of k r.headers))
  proxy_relays tokens h =
      let e = handle_ac_other tokens h in
      (
        ap (λ o. o.1) e,
        ap (λ o. o.0.status) e,
        ap (λ o. o.0.body) e,
        λ k.
            ap (λ o. found (lookup k o.0.headers)) e
            ∙ found-copy_headers k resp.headers []
            ∙ ap (λ vs. vs ++ values_of k resp.headers) (found_nil k),
        λ k.
            found-copy_request_headers k r.headers []
            ∙ ap₂ (λ xs ys. if is_own_key k then xs else ys ++ values_of k r.headers) (found_nil k)
                (found_nil k),
      )
