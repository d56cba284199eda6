-- ===== src/Site/Routing.antt =====
-- Which paths lead to which handler.
use mathlib.Core.Path.{subst}
use fbf_3ds_servers.Base.{
  ◌≡◌, ◌≢◌, refl, sym, ◌⊎◌, inl, inr, true, false, some, [], ◌∷◌, Str, txt, str_beq, str_beq_iff,
  has_prefix, ltb, length, Bool-cases, Option-cases, All, arith,
}
use fbf_3ds_servers.Site.Mux.{
  Handler, ac, register, stats, challenge, root, Routes, nasc_routes, http_routes, matches,
  ends_in_slash, find, handler, target,
}

find_cons :
    (r : Str × Handler) (routes : Routes) (path : Str) {s : Str × Handler}
    → find (r ∷ routes) path ≡ some s
    → ((r ≡ s) × (matches r.0 path ≡ true)) ⊎ (find routes path ≡ some s)
unfolding find
find_cons (p, k) routes path {s} e = elim (Bool-cases (matches p path)) [
  | inr other ↦ inr (ground arith)
  | inl here ↦ elim (Option-cases (find routes path)) [
    | inl alone ↦ inl (ground arith, here)
    | inr ((q, l), found) ↦ elim (Bool-cases (ltb (length p) (length q))) [
      | inl below ↦ inr (ground arith)
      | inr above ↦ inl (ground arith, here)
    ]
  ]
]

-- What holds of every route holds of the one that is found, and its pattern matches.
All-find :
    (P : Str × Handler → Type 0) (routes : Routes) (path : Str) {s : Str × Handler}
    → All P routes
    → find routes path ≡ some s
    → P s × (matches s.0 path ≡ true)
unfolding find
All-find P [] path h e = ground arith
All-find P (r ∷ routes) path {s} h e = elim (find_cons r routes path e) [
  | inl (same, here) ↦ subst (λ t. P t × (matches t.0 path ≡ true)) same (h.0, here)
  | inr found ↦ All-find P routes path h.1 found
]

-- Where the routes lead: the paths of the three handlers that change something.
abbrev pub IsOwn : Str × Handler → Type 0
IsOwn (p, ac) = (p ≡ txt "/ac") ⊎ (p ≡ txt "/ac/")
IsOwn (p, register) = p ≡ txt "/register"
IsOwn (p, stats) = p ≡ txt "/stats"
IsOwn (p, challenge) = Unit
IsOwn (p, root) = Unit

pub nasc_routes-IsOwn : All IsOwn nasc_routes
nasc_routes-IsOwn = (inl refl, (inr refl, (refl, (refl, (tt, tt)))))

pub http_routes-IsOwn : All IsOwn http_routes
http_routes-IsOwn = (refl, (refl, (tt, (tt, tt))))

-- A path that leads to the handler.
abbrev pub LeadsTo : Handler → Str → Type 0
LeadsTo ac path = (path ≡ txt "/ac") ⊎ (has_prefix (txt "/ac/") path ≡ true)
LeadsTo register path = path ≡ txt "/register"
LeadsTo stats path = path ≡ txt "/stats"
LeadsTo challenge path = Unit
LeadsTo root path = Unit

plain_ac : ends_in_slash (txt "/ac") ≡ false
unfolding ends_in_slash
plain_ac = refl

plain_register : ends_in_slash (txt "/register") ≡ false
unfolding ends_in_slash
plain_register = refl

plain_stats : ends_in_slash (txt "/stats") ≡ false
unfolding ends_in_slash
plain_stats = refl

below_itself : has_prefix (txt "/ac/") (txt "/ac/") ≡ true
unfolding has_prefix
below_itself = refl

-- A pattern with no slash at its end matches itself only.
matches_plain : (p path : Str) → ends_in_slash p ≡ false → matches p path ≡ true → path ≡ p
unfolding matches
matches_plain p path plain e = sym ((str_beq_iff p path).0 (ground arith))

matches_below :
    (path : Str) → matches (txt "/ac/") path ≡ true → has_prefix (txt "/ac/") path ≡ true
unfolding matches ends_in_slash
matches_below path e = elim (Bool-cases (str_beq (txt "/ac/") path)) [
  | inl same ↦
      subst (λ q. has_prefix (txt "/ac/") q ≡ true) ((str_beq_iff (txt "/ac/") path).0 same)
        below_itself
  | inr other ↦ ground arith
]

own_matches :
    (r : Str × Handler) (path : Str) → IsOwn r → matches r.0 path ≡ true → LeadsTo r.1 path
own_matches (p, ac) path own e = elim own [
  | inl same ↦
      inl (matches_plain (txt "/ac") path plain_ac (subst (λ q. matches q path ≡ true) same e))
  | inr same ↦ inr (matches_below path (subst (λ q. matches q path ≡ true) same e))
]
own_matches (p, register) path own e =
    matches_plain (txt "/register") path plain_register (subst (λ q. matches q path ≡ true) own e)
own_matches (p, stats) path own e =
    matches_plain (txt "/stats") path plain_stats (subst (λ q. matches q path ≡ true) own e)
own_matches (p, challenge) path own e = tt
own_matches (p, root) path own e = tt

target-find :
    (routes : Routes) (method path : Str) {h : Handler}
    → target routes method path ≡ handler h
    → (p : Str) × (find routes path ≡ some (p, h))
unfolding target
target-find routes method path {h} e = elim (Option-cases (find routes path)) [
  | inl missing ↦ absurd (ground arith)
  | inr ((p, k), found) ↦ let same : k ≡ h = ground arith in (p, ground arith)
]

-- A request that reaches a handler has a path that leads to it.
pub target-LeadsTo :
    (routes : Routes) (method path : Str) {h : Handler}
    → All IsOwn routes
    → target routes method path ≡ handler h
    → LeadsTo h path
target-LeadsTo routes method path {h} own e =
    let (p, found) = target-find routes method path e in
    let (own_route, here) = All-find IsOwn routes path own found in
    own_matches (p, h) path own_route here

-- A handler that no route names is not reached.
abbrev pub IsOther : Handler → Str × Handler → Type 0
IsOther h r = r.1 ≢ h

pub target-IsOther :
    (routes : Routes) (method path : Str) {h : Handler}
    → All (IsOther h) routes
    → target routes method path ≢ handler h
target-IsOther routes method path {h} others e =
    let (p, found) = target-find routes method path e in
    (All-find (IsOther h) routes path others found).0 refl

pub http_routes-IsOther : All (IsOther ac) http_routes
http_routes-IsOther =
    (λ e. ground arith, (λ e. ground arith, (λ e. ground arith, (λ e. ground arith, tt))))
