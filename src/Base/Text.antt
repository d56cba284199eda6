-- ===== src/Base/Text.antt =====
-- Go strings as lists of bytes, and the operations of package strings that the server calls.
use Prim.Native.Char.{code}
use Prim.Native.Nat.{ℕ, zero, suc}
use Prim.Native.String.{String}
use mathlib.Core.Path.{◌≡◌, refl, sym, ◌∙◌}
use mathlib.Core.Logic.{inl, inr, ◌↔◌, ◌≢◌}
use mathlib.Core.Bool.{false≢true, Bool, true, false, ◌&&◌, ◌||◌}
use mathlib.Core.Option.{Option, none, some}
use mathlib.Core.List.{List, [], ◌∷◌, ◌++◌, map, reverse}
use native.Mathlib.Omega.{arith}
use fbf_3ds_servers.Base.Tests.{Bool-cases, nat_beq, if◌then◌else◌, Comparable, nat_eq}
use fbf_3ds_servers.Base.Lists.{All, length}

abbrev pub Str : Type 0
Str = List ℕ

-- The bytes of an ASCII literal.
abbrev pub txt : String → Str
txt String.[] = []
txt (String.◌∷◌ c s) = code c ∷ txt s

abbrev pub str_beq : Str → Str → Bool
str_beq [] [] = true
str_beq [] (d ∷ t) = false
str_beq (c ∷ s) [] = false
str_beq (c ∷ s) (d ∷ t) = nat_beq c d && str_beq s t

str_beq_to : (s t : Str) → str_beq s t ≡ true → s ≡ t
str_beq_to [] [] h = refl
str_beq_to [] (d ∷ t) h = ground arith
str_beq_to (c ∷ s) [] h = ground arith
str_beq_to (c ∷ s) (d ∷ t) h = ground (arith, str_beq_to s t)

str_beq_refl : (s : Str) → str_beq s s ≡ true
str_beq_refl [] = refl
str_beq_refl (c ∷ s) = ground (arith, str_beq_refl s)

pub str_beq_iff : (s t : Str) → (str_beq s t ≡ true) ↔ (s ≡ t)
str_beq_iff s t = (str_beq_to s t, λ e. rw e (str_beq_refl t))

-- For two literals the premise is `refl`.
pub str_ne : (s t : Str) → str_beq s t ≡ false → s ≢ t
str_ne s t h = λ e. absurd (false≢true (sym h ∙ (str_beq_iff s t).1 e))

instance abbrev pub str_eq : Comparable Str
str_eq = record { beq = str_beq; beq_iff = str_beq_iff }

-- No byte of the text is `b`.
abbrev pub IsFree : ℕ → Str → Type 0
IsFree b = All (λ c. c ≢ b)

-- The text before and after the first `b`: `s[:i]` and `s[i+1:]` for `i = strings.Index(s, b)`;
-- `none` where there is none.
unfoldable pub cut : ℕ → Str → Option (Str × Str)
cut b [] = none
cut b (c ∷ s) =
    if nat_beq c b
    then some ([], s)
    else elim (cut b s) [ none ↦ none | some (x, y) ↦ some (c ∷ x, y) ]

pub cut-append : (b : ℕ) (x y : Str) → IsFree b x → cut b (x ++ b ∷ y) ≡ some (x, y)
unfolding cut
cut-append b [] y h = ground arith
cut-append b (c ∷ x) y h = ground (arith, cut-append b x y h.1)

-- strings.Split(s, b) for a one-byte separator.
unfoldable pub split : ℕ → Str → List Str
split b [] = [] ∷ []
split b (c ∷ s) = elim (split b s) [
  | [] ↦ []
  | part ∷ parts ↦ if nat_beq c b then [] ∷ part ∷ parts else (c ∷ part) ∷ parts
]

pub split_cons : (b : ℕ) (s : Str) → (part : Str) × (parts : List Str) × (split b s ≡ part ∷ parts)
unfolding split
split_cons b [] = ([], [], refl)
split_cons b (c ∷ s) =
    let (part, parts, e) = split_cons b s in
    elim (Bool-cases (nat_beq c b)) [
      | inl here ↦ ([], part ∷ parts, rw (e, here))
      | inr other ↦ (c ∷ part, parts, rw (e, other))
    ]

pub split-append : (b : ℕ) (x y : Str) → IsFree b x → split b (x ++ b ∷ y) ≡ x ∷ split b y
unfolding split
split-append b [] y h = let (part, parts, e) = split_cons b y in ground arith
split-append b (c ∷ x) y h = ground (arith, split-append b x y h.1)

pub split_of_IsFree : (b : ℕ) (x : Str) → IsFree b x → split b x ≡ x ∷ []
unfolding split
split_of_IsFree b [] h = refl
split_of_IsFree b (c ∷ x) h = ground (arith, split_of_IsFree b x h.1)

-- `s` without the prefix `p`.
drop_prefix : Str → Str → Option Str
drop_prefix [] s = some s
drop_prefix (c ∷ p) [] = none
drop_prefix (c ∷ p) (d ∷ s) = if nat_beq c d then drop_prefix p s else none

-- `s` without the first of the prefixes that it has.
drop_any : List Str → Str → Option Str
drop_any [] s = none
drop_any (p ∷ ps) s = elim (drop_prefix p s) [ none ↦ drop_any ps s | some r ↦ some r ]

-- Every byte sequence of UTF-8 whose code point is white space (unicode.IsSpace).
abbrev spaces : List Str
spaces =
    (9 ∷ [])
    ∷ (10 ∷ [])
    ∷ (11 ∷ [])
    ∷ (12 ∷ [])
    ∷ (13 ∷ [])
    ∷ (32 ∷ [])
    ∷ (0xC2 ∷ 0x85 ∷ [])
    ∷ (0xC2 ∷ 0xA0 ∷ [])
    ∷ (0xE1 ∷ 0x9A ∷ 0x80 ∷ [])
    ∷ (0xE2 ∷ 0x80 ∷ 0x80 ∷ [])
    ∷ (0xE2 ∷ 0x80 ∷ 0x81 ∷ [])
    ∷ (0xE2 ∷ 0x80 ∷ 0x82 ∷ [])
    ∷ (0xE2 ∷ 0x80 ∷ 0x83 ∷ [])
    ∷ (0xE2 ∷ 0x80 ∷ 0x84 ∷ [])
    ∷ (0xE2 ∷ 0x80 ∷ 0x85 ∷ [])
    ∷ (0xE2 ∷ 0x80 ∷ 0x86 ∷ [])
    ∷ (0xE2 ∷ 0x80 ∷ 0x87 ∷ [])
    ∷ (0xE2 ∷ 0x80 ∷ 0x88 ∷ [])
    ∷ (0xE2 ∷ 0x80 ∷ 0x89 ∷ [])
    ∷ (0xE2 ∷ 0x80 ∷ 0x8A ∷ [])
    ∷ (0xE2 ∷ 0x80 ∷ 0xA8 ∷ [])
    ∷ (0xE2 ∷ 0x80 ∷ 0xA9 ∷ [])
    ∷ (0xE2 ∷ 0x80 ∷ 0xAF ∷ [])
    ∷ (0xE2 ∷ 0x81 ∷ 0x9F ∷ [])
    ∷ (0xE3 ∷ 0x80 ∷ 0x80 ∷ [])
    ∷ []

-- Drops prefixes until none is left. Each is one byte at least, so the length is fuel enough.
trim_prefixes : List Str → ℕ → Str → Str
trim_prefixes ps zero s = s
trim_prefixes ps (suc f) s = elim (drop_any ps s) [ none ↦ s | some r ↦ trim_prefixes ps f r ]

-- strings.TrimSpace. A space is cut off the right end as its reversed bytes off the reversed text.
unfoldable pub trim_space : Str → Str
unfolding trim_prefixes drop_any drop_prefix
trim_space s =
    let right = trim_prefixes spaces (length s) s in
    reverse (trim_prefixes (map reverse spaces) (length right) (reverse right))

unfoldable pub has_prefix : Str → Str → Bool
has_prefix [] s = true
has_prefix (c ∷ p) [] = false
has_prefix (c ∷ p) (d ∷ s) = nat_beq c d && has_prefix p s

-- strings.Contains(s, p)
unfoldable pub contains : Str → Str → Bool
unfolding has_prefix
contains [] p = has_prefix p []
contains (c ∷ s) p = has_prefix p (c ∷ s) || contains s p
