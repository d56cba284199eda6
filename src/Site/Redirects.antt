-- ===== src/Site/Redirects.antt =====
-- Redirections: a client that follows one is not sent on again.
use mathlib.Core.Path.{subst}
use fbf_3ds_servers.Base.{
  ◌≡◌, ◌≢◌, refl, sym, ap, ◌∙◌, ◌⊎◌, inl, inr, true, false, Option, none, some, [], ◌∷◌, ◌++◌, Str,
  txt, str_beq, str_beq_iff, split, All, if◌then◌else◌, Bool-cases, arith,
}
use fbf_3ds_servers.Site.Registration.{Web, https, http, routes_of}
use fbf_3ds_servers.Site.Mux.{
  Handler, target_of, Routes, nasc_routes, http_routes, Target, moved, ends_in_slash, clean_parts,
  join_parts, clean_path, is_pattern, wants_slash, find, target,
}
use fbf_3ds_servers.Site.CleanPath.{ends_append, clean_path-clean_path}

-- The path that the routes are searched for.
abbrev searched : Str → Str → Str
searched method path = if str_beq method (txt "CONNECT") then path else clean_path path

searched-searched :
    (method path : Str) → searched method (searched method path) ≡ searched method path
searched-searched method path = elim (Bool-cases (str_beq method (txt "CONNECT"))) [
  | inl connect ↦ rw connect refl
  | inr other ↦ rw other (clean_path-clean_path path)
]

searched_of_clean : (method path : Str) → clean_path path ≡ path → searched method path ≡ path
searched_of_clean method path e = elim (Bool-cases (str_beq method (txt "CONNECT"))) [
  | inl connect ↦ rw connect refl
  | inr other ↦ rw other e
]

abbrev decided : Routes → Str → Str → Target
decided routes cleaned path =
    if wants_slash routes cleaned
    then moved (cleaned ++ b'/' ∷ [])
    else if str_beq cleaned path
    then target_of (find routes path)
    else moved cleaned

target-decided :
    (routes : Routes) (method path : Str)
    → target routes method path ≡ decided routes (searched method path) path
unfolding target
target-decided routes method path = refl

found_stays : (o : Option (Str × Handler)) (q : Str) → target_of o ≢ moved q
found_stays none q = λ e. ground arith
found_stays (some (p, k)) q = λ e. ground arith

decided_same :
    (routes : Routes) (path q : Str)
    → wants_slash routes path ≡ false
    → decided routes path path ≢ moved q
decided_same routes path q plain h =
    found_stays (find routes path) q (rw (plain, (str_beq_iff path path).1 refl) at h)

moved_path : (p q : Str) → moved p ≡ moved q → p ≡ q
moved_path p q e = ground arith

decided-cases :
    (routes : Routes) (c path p : Str)
    → decided routes c path ≡ moved p
    → ((wants_slash routes c ≡ true) × (p ≡ c ++ b'/' ∷ []))
      ⊎ ((wants_slash routes c ≡ false) × (p ≡ c))
decided-cases routes c path p e = elim (Bool-cases (wants_slash routes c)) [
  | inl slash ↦ inl (slash, sym (moved_path (c ++ b'/' ∷ []) p (rw slash at e)))
  | inr plain ↦ elim (Bool-cases (str_beq c path)) [
    | inl same ↦ absurd (found_stays (find routes path) p (rw (plain, same) at e))
    | inr other ↦ inr (plain, sym (moved_path c p (rw (plain, other) at e)))
  ]
]

-- A path that is searched for as it is, and wants no slash, is not redirected.
settled :
    (routes : Routes) (method path q : Str)
    → searched method path ≡ path
    → wants_slash routes path ≡ false
    → target routes method path ≢ moved q
settled routes method path q e plain h =
    decided_same routes path q plain
      (sym (ap (λ c. decided routes c path) e) ∙ sym (target-decided routes method path) ∙ h)

pattern_is_clean :
    (routes : Routes) (path : Str)
    → All (λ r. clean_path r.0 ≡ r.0) routes
    → is_pattern routes path ≡ true
    → clean_path path ≡ path
unfolding is_pattern
pattern_is_clean [] path h e = ground arith
pattern_is_clean ((p, k) ∷ routes) path h e = elim (Bool-cases (str_beq p path)) [
  | inl same ↦ subst (λ x. clean_path x ≡ x) ((str_beq_iff p path).0 same) h.0
  | inr other ↦ pattern_is_clean routes path h.1 (ground arith)
]

wants_slash-cases :
    (routes : Routes) (path : Str)
    → wants_slash routes path ≡ true
    → is_pattern routes (path ++ b'/' ∷ []) ≡ true
unfolding wants_slash
wants_slash-cases routes path e = ground arith

slash_enough : (routes : Routes) (path : Str) → wants_slash routes (path ++ b'/' ∷ []) ≡ false
unfolding wants_slash
slash_enough routes path = rw (ends_append path, wants_slash) refl

no_second :
    (routes : Routes)
    → All (λ r. clean_path r.0 ≡ r.0) routes
    → (method path p q : Str) → target routes method path ≡ moved p
    → target routes method p ≢ moved q
no_second routes clean method path p q e =
    let c = searched method path in
    elim (decided-cases routes c path p (sym (target-decided routes method path) ∙ e)) [
      | inl (slash, same) ↦
          let fixed =
            searched_of_clean method (c ++ b'/' ∷ [])
              (pattern_is_clean routes (c ++ b'/' ∷ []) clean (wants_slash-cases routes c slash)) in
          subst (λ x. target routes method x ≢ moved q) (sym same)
            (settled routes method (c ++ b'/' ∷ []) q fixed (slash_enough routes c))
      | inr (plain, same) ↦
          subst (λ x. target routes method x ≢ moved q) (sym same)
            (settled routes method c q (searched-searched method path) plain)
    ]

nasc_routes_clean : All (λ r. clean_path r.0 ≡ r.0) nasc_routes
unfolding clean_path clean_parts join_parts ends_in_slash split
nasc_routes_clean = (refl, (refl, (refl, (refl, (refl, tt)))))

http_routes_clean : All (λ r. clean_path r.0 ≡ r.0) http_routes
unfolding clean_path clean_parts join_parts ends_in_slash split
http_routes_clean = (refl, (refl, (refl, (refl, tt))))

-- Redirections end after one step: at either server, a request that is redirected, and is sent again
-- by the same method to the path that it is redirected to, is not redirected a second time.
redirected_once :
    (web : Web) (method path p q : Str)
    → target (routes_of web) method path ≡ moved p
    → target (routes_of web) method p ≢ moved q
redirected_once https = no_second nasc_routes nasc_routes_clean
redirected_once http = no_second http_routes http_routes_clean
