-- ===== src/Site/CleanPath.antt =====
-- Cleaning a path twice is cleaning it once.
use mathlib.Core.Path.{subst}
use mathlib.Core.List.{reverse, reverse-cons, reverse-reverse, append-nil, append_assoc}
use fbf_3ds_servers.Base.{
  ℕ, ◌≡◌, refl, sym, ap, ◌∙◌, inl, inr, Bool, true, false, ◌||◌, List, [], ◌∷◌, ◌++◌, Str, txt,
  str_beq, nat_beq, split, split-append, split_of_IsFree, split_cons, IsFree, All, All-append,
  if◌then◌else◌, Bool-cases, arith,
}
use fbf_3ds_servers.Site.Mux.{ends_in_slash, clean_parts, join_parts, clean_path}

abbrev dotted : Str → Bool
dotted s = str_beq s [] || str_beq s (txt ".") || str_beq s (txt "..")

-- An element that stays in a clean path.
abbrev IsPart : Str → Type 0
IsPart s = (dotted s ≡ false) × IsFree b'/' s

parts_of_split : (s : Str) → All (IsFree b'/') (split b'/' s)
unfolding split
parts_of_split [] = (tt, tt)
parts_of_split (c ∷ s) =
    let (part, parts, e) = split_cons b'/' s in
    let h : All (IsFree b'/') (part ∷ parts) = subst (All (IsFree b'/')) e (parts_of_split s) in
    elim (Bool-cases (nat_beq c b'/')) [
      | inl here ↦ rw (e, here) (tt, h)
      | inr other ↦ rw (e, other) ((ground arith, h.0), h.1)
    ]

clean_parts-IsPart :
    (parts done : List Str)
    → All (IsFree b'/') parts
    → All IsPart done
    → All IsPart (clean_parts parts done)
unfolding clean_parts
clean_parts-IsPart [] done h k = k
clean_parts-IsPart (part ∷ parts) done h k =
    elim (Bool-cases (str_beq part [] || str_beq part (txt "."))) [
      | inl skipped ↦ rw skipped (clean_parts-IsPart parts done h.1 k)
      | inr named ↦ elim (Bool-cases (str_beq part (txt ".."))) [
        | inl up ↦
            rw (named, up)
              (clean_parts-IsPart parts (elim done [ [] ↦ [] | _ ∷ above ↦ above ]) h.1
                (above done k))
        | inr kept ↦
            rw (named, kept) (clean_parts-IsPart parts (part ∷ done) h.1 ((ground arith, h.0), k))
      ]
    ]
  where
    above : (ds : List Str) → All IsPart ds → All IsPart (elim ds [ [] ↦ [] | _ ∷ up ↦ up ])
    above [] l = tt
    above (d ∷ ds) l = l.1

-- Clean elements are all kept.
clean_parts_of_parts :
    (parts done : List Str) → All IsPart parts → clean_parts parts done ≡ reverse parts ++ done
unfolding clean_parts
clean_parts_of_parts [] done h = refl
clean_parts_of_parts (part ∷ parts) done h =
    let named : (str_beq part [] || str_beq part (txt ".")) ≡ false =
      let d = h.0.0 in ground arith in
    let kept : str_beq part (txt "..") ≡ false = let d = h.0.0 in ground arith in
    rw (named, kept) (clean_parts_of_parts parts (part ∷ done) h.1)
    ∙ sym (append_assoc (reverse parts) (part ∷ []) done)
    ∙ ap (λ x. x ++ done) (sym (reverse-cons part parts))

-- A slash at the end adds an empty element, which is left out.
clean_parts_slash :
    (parts done : List Str) → clean_parts (parts ++ [] ∷ []) done ≡ clean_parts parts done
unfolding clean_parts
clean_parts_slash [] done = refl
clean_parts_slash (part ∷ parts) done = clean_parts_slash parts _

split_nil : split b'/' [] ≡ [] ∷ []
unfolding split
split_nil = refl

split_join :
    (p : Str) (ps : List Str) → All IsPart (p ∷ ps) → split b'/' (p ++ join_parts ps) ≡ p ∷ ps
unfolding join_parts
split_join p [] h = ap (split b'/') (append-nil p) ∙ split_of_IsFree b'/' p h.0.1
split_join p (q ∷ qs) h =
    split-append b'/' p (q ++ join_parts qs) h.0.1 ∙ ap (◌∷◌ p) (split_join q qs h.1)

split_join_slash :
    (p : Str) (ps : List Str)
    → All IsPart (p ∷ ps)
    → split b'/' (p ++ (join_parts ps ++ b'/' ∷ [])) ≡ p ∷ (ps ++ [] ∷ [])
unfolding join_parts
split_join_slash p [] h = split-append b'/' p [] h.0.1 ∙ ap (◌∷◌ p) split_nil
split_join_slash p (q ∷ qs) h =
    ap (λ x. split b'/' (p ++ b'/' ∷ x)) (append_assoc q (join_parts qs) (b'/' ∷ []))
    ∙ split-append b'/' p (q ++ (join_parts qs ++ b'/' ∷ [])) h.0.1
    ∙ ap (◌∷◌ p) (split_join_slash q qs h.1)

pub ends_append : (s : Str) → ends_in_slash (s ++ b'/' ∷ []) ≡ true
unfolding ends_in_slash
ends_append [] = refl
ends_append (c ∷ []) = refl
ends_append (c ∷ d ∷ s) = ends_append (d ∷ s)

All-reverse {ℓ κ} : {A : Type ℓ} (P : A → Type κ) (xs : List A) → All P xs → All P (reverse xs)
All-reverse P [] h = tt
All-reverse P (x ∷ xs) h =
    subst (All P) (sym (reverse-cons x xs))
      (All-append P (reverse xs) (x ∷ []) (All-reverse P xs h.1) (h.0, tt))

ends_in_rest : (x : Str) (c : ℕ) (y : Str) → ends_in_slash (x ++ c ∷ y) ≡ ends_in_slash (c ∷ y)
unfolding ends_in_slash
ends_in_rest [] c y = refl
ends_in_rest (d ∷ []) c y = refl
ends_in_rest (d ∷ e ∷ x) c y = ends_in_rest (e ∷ x) c y

ends_of_IsFree : (c : ℕ) (s : Str) → IsFree b'/' (c ∷ s) → ends_in_slash (c ∷ s) ≡ false
unfolding ends_in_slash
ends_of_IsFree c [] h = ground arith
ends_of_IsFree c (d ∷ s) h = ends_of_IsFree d s h.1

ends-join :
    (d : ℕ) (p : Str) (ps : List Str)
    → All IsPart (p ∷ ps)
    → ends_in_slash (d ∷ (p ++ join_parts ps)) ≡ false
unfolding join_parts
ends-join d [] ps h = ground (arith, h.0.0)
ends-join d (c ∷ s) [] h =
    ap (λ x. ends_in_slash (d ∷ x)) (append-nil (c ∷ s))
    ∙ ends_in_rest (d ∷ []) c s
    ∙ ends_of_IsFree c s h.0.1
ends-join d (c ∷ s) (q ∷ qs) h =
    ends_in_rest (d ∷ c ∷ s) b'/' (q ++ join_parts qs) ∙ ends-join b'/' q qs h.1

-- The parts of a path, in their order.
abbrev parts_of : Str → List Str
parts_of path = reverse (clean_parts (split b'/' path) [])

parts_of-IsPart : (path : Str) → All IsPart (parts_of path)
parts_of-IsPart path =
    All-reverse IsPart (clean_parts (split b'/' path) [])
      (clean_parts-IsPart (split b'/' path) [] (parts_of_split path) tt)

-- A clean path that is not the root.
abbrev joined : Str → List Str → Str
joined p ps = b'/' ∷ (p ++ join_parts ps)

reverse_back : (ps : List Str) → reverse (reverse ps ++ []) ≡ ps
reverse_back ps = ap reverse (append-nil (reverse ps)) ∙ reverse-reverse ps

clean_parts_nil : (parts : List Str) → clean_parts ([] ∷ parts) [] ≡ clean_parts parts []
unfolding clean_parts
clean_parts_nil parts = refl

parts_of-joined : (p : Str) (ps : List Str) → All IsPart (p ∷ ps) → parts_of (joined p ps) ≡ p ∷ ps
parts_of-joined p ps h =
    ap (λ x. reverse (clean_parts x []))
      (split-append b'/' [] (p ++ join_parts ps) tt ∙ ap (◌∷◌ []) (split_join p ps h))
    ∙ ap reverse (clean_parts_nil (p ∷ ps) ∙ clean_parts_of_parts (p ∷ ps) [] h)
    ∙ reverse_back (p ∷ ps)

parts_of-joined_slash :
    (p : Str) (ps : List Str) → All IsPart (p ∷ ps) → parts_of (joined p ps ++ b'/' ∷ []) ≡ p ∷ ps
parts_of-joined_slash p ps h =
    ap (λ x. reverse (clean_parts x []))
      (split-append b'/' [] ((p ++ join_parts ps) ++ b'/' ∷ []) tt
        ∙ ap (λ x. [] ∷ split b'/' x) (append_assoc p (join_parts ps) (b'/' ∷ []))
        ∙ ap (◌∷◌ []) (split_join_slash p ps h))
    ∙ ap reverse (
        clean_parts_nil (p ∷ (ps ++ [] ∷ []))
        ∙ clean_parts_slash (p ∷ ps) []
        ∙ clean_parts_of_parts (p ∷ ps) [] h)
    ∙ reverse_back (p ∷ ps)

-- What clean_path makes of the parts.
abbrev rebuilt : List Str → Bool → Str
rebuilt [] slash = txt "/"
rebuilt (p ∷ ps) slash = if slash then joined p ps ++ b'/' ∷ [] else joined p ps

clean_path-rebuilt : (path : Str) → clean_path path ≡ rebuilt (parts_of path) (ends_in_slash path)
unfolding clean_path
clean_path-rebuilt path = go (parts_of path) refl
  where
    go : (ps : List Str) → parts_of path ≡ ps → clean_path path ≡ rebuilt ps (ends_in_slash path)
    go [] e = rw (clean_path, e) refl
    go (p ∷ ps) e = rw (clean_path, e) refl

clean_root : clean_path (txt "/") ≡ txt "/"
unfolding clean_path clean_parts join_parts ends_in_slash split
clean_root = refl

clean_rebuilt :
    (ps : List Str) (slash : Bool)
    → All IsPart ps
    → clean_path (rebuilt ps slash) ≡ rebuilt ps slash
clean_rebuilt [] slash h = clean_root
clean_rebuilt (p ∷ ps) false h =
    clean_path-rebuilt (joined p ps)
    ∙ ap (rebuilt (parts_of (joined p ps))) (ends-join b'/' p ps h)
    ∙ ap (λ qs. rebuilt qs false) (parts_of-joined p ps h)
clean_rebuilt (p ∷ ps) true h =
    clean_path-rebuilt (joined p ps ++ b'/' ∷ [])
    ∙ ap (rebuilt (parts_of (joined p ps ++ b'/' ∷ []))) (ends_append (joined p ps))
    ∙ ap (λ qs. rebuilt qs true) (parts_of-joined_slash p ps h)

pub clean_path-clean_path : (path : Str) → clean_path (clean_path path) ≡ clean_path path
clean_path-clean_path path =
    let e = clean_path-rebuilt path in
    ap clean_path e
    ∙ clean_rebuilt (parts_of path) (ends_in_slash path) (parts_of-IsPart path)
    ∙ sym e
