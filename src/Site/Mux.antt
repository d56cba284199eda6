-- ===== src/Site/Mux.antt =====
-- The routes of both servers, and what http.ServeMux makes of a path. Paths have no percent escapes.
use mathlib.Core.List.{reverse}
use fbf_3ds_servers.Base.{
  Bool, false, not, ◌&&◌, ◌||◌, Option, none, some, List, [], ◌∷◌, ◌++◌, Str, txt, str_beq, ltb,
  length, split, has_prefix, if◌then◌else◌,
}

-- What is registered for a pattern.
pub data Handler : Type 0 where
  ac : Handler
  register : Handler
  stats : Handler
  challenge : Handler
  root : Handler

abbrev pub Routes : Type 0
Routes = List (Str × Handler)

-- startNASCServer
abbrev pub nasc_routes : Routes
nasc_routes =
    (txt "/ac", ac)
    ∷ (txt "/ac/", ac)
    ∷ (txt "/register", register)
    ∷ (txt "/stats", stats)
    ∷ (txt "/", root)
    ∷ []

-- startHTTPRegister
abbrev pub http_routes : Routes
http_routes =
    (txt "/register", register)
    ∷ (txt "/stats", stats)
    ∷ (txt "/.well-known/acme-challenge/", challenge)
    ∷ (txt "/", root)
    ∷ []

unfoldable pub ends_in_slash : Str → Bool
ends_in_slash [] = false
ends_in_slash (c ∷ []) = str_beq (c ∷ []) (txt "/")
ends_in_slash (c ∷ d ∷ s) = ends_in_slash (d ∷ s)

-- A pattern that ends in a slash also stands for every path below it.
unfoldable pub matches : Str → Str → Bool
unfolding ends_in_slash has_prefix
matches pattern path = str_beq pattern path || (ends_in_slash pattern && has_prefix pattern path)

abbrev longer : Str × Handler → Option (Str × Handler) → Str × Handler
longer r none = r
longer (p, h) (some (q, k)) = if ltb (length p) (length q) then (q, k) else (p, h)

-- The longest pattern that matches.
unfoldable pub find : Routes → Str → Option (Str × Handler)
unfolding matches
find [] path = none
find ((p, h) ∷ routes) path =
    let rest = find routes path in if matches p path then some (longer (p, h) rest) else rest

-- The elements of a path, the last one first: empty ones and `.` are left out, `..` drops one.
unfoldable pub clean_parts : List Str → List Str → List Str
clean_parts [] done = done
clean_parts (part ∷ parts) done = clean_parts parts (
    if str_beq part [] || str_beq part (txt ".")
    then done
    else if str_beq part (txt "..")
    then elim done [ [] ↦ [] | _ ∷ above ↦ above ]
    else part ∷ done)

unfoldable pub join_parts : List Str → Str
join_parts [] = []
join_parts (part ∷ parts) = b'/' ∷ (part ++ join_parts parts)

-- cleanPath of net/http: a rooted path.Clean that keeps a slash at the end.
unfoldable pub clean_path : Str → Str
unfolding split clean_parts join_parts ends_in_slash
clean_path path =
    let cleaned = join_parts (reverse (clean_parts (split b'/' path) [])) in
    if str_beq cleaned []
    then txt "/"
    else if ends_in_slash path
    then cleaned ++ b'/' ∷ []
    else cleaned

-- What becomes of a request: a handler, a redirection, or no route.
pub data Target : Type 0 where
  handler : Handler → Target
  moved : Str → Target
  no_route : Target

unfoldable pub is_pattern : Routes → Str → Bool
is_pattern [] path = false
is_pattern ((p, _) ∷ routes) path = str_beq p path || is_pattern routes path

-- A path that is no pattern, where the one with a slash behind it is.
unfoldable pub wants_slash : Routes → Str → Bool
unfolding is_pattern ends_in_slash
wants_slash routes path =
    not (ends_in_slash path)
    && not (is_pattern routes path)
    && is_pattern routes (path ++ b'/' ∷ [])

abbrev pub target_of : Option (Str × Handler) → Target
target_of none = no_route
target_of (some (_, h)) = handler h

-- ServeMux.Handler: the path of CONNECT is taken as it is.
unfoldable pub target : Routes → Str → Str → Target
unfolding find clean_path wants_slash
target routes method path =
    let cleaned = if str_beq method (txt "CONNECT") then path else clean_path path in
    if wants_slash routes cleaned
    then moved (cleaned ++ b'/' ∷ [])
    else if str_beq cleaned path
    then target_of (find routes path)
    else moved cleaned
