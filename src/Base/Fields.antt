-- ===== src/Base/Fields.antt =====
-- strings.Fields on ASCII text, and the first line of a text.
use mathlib.Core.Path.{◌≡◌, refl}
use mathlib.Core.Bool.{Bool, true, false, ◌||◌, ◌&&◌}
use mathlib.Core.Option.{none, some}
use mathlib.Core.List.{List, [], ◌∷◌, ◌++◌}
use Prim.Native.Nat.{ℕ}
use mathlib.Core.Logic.{inl, inr}
use fbf_3ds_servers.Base.Tests.{nat_beq, leb, if◌then◌else◌, Bool-cases}
use fbf_3ds_servers.Base.Lists.{All}
use fbf_3ds_servers.Base.Text.{Str, cut, cut-append, IsFree}

abbrev pub is_blank : ℕ → Bool
is_blank c = nat_beq c 32 || (leb 9 c && leb c 13)

-- The pieces between white space, also the empty ones.
unfoldable pub split_blank : Str → List Str
split_blank [] = [] ∷ []
split_blank (c ∷ s) = elim (split_blank s) [
  | [] ↦ []
  | part ∷ parts ↦ if is_blank c then [] ∷ part ∷ parts else (c ∷ part) ∷ parts
]

unfoldable pub not_empty : List Str → List Str
not_empty [] = []
not_empty ([] ∷ parts) = not_empty parts
not_empty ((c ∷ part) ∷ parts) = (c ∷ part) ∷ not_empty parts

-- strings.Fields
unfoldable pub fields : Str → List Str
unfolding split_blank not_empty
fields s = not_empty (split_blank s)

-- strings.SplitN(s, "\n", 2)[0]
unfoldable pub first_line : Str → Str
first_line s = elim (cut 10 s) [ none ↦ s | some (line, rest) ↦ line ]

-- A word has no white space.
abbrev pub IsWord : Str → Type 0
IsWord = All (λ c. is_blank c ≡ false)

split_blank_cons : (s : Str) → (part : Str) × (parts : List Str) × (split_blank s ≡ part ∷ parts)
unfolding split_blank
split_blank_cons [] = ([], [], refl)
split_blank_cons (c ∷ s) =
    let (part, parts, e) = split_blank_cons s in
    elim (Bool-cases (is_blank c)) [
      | inl here ↦ ([], part ∷ parts, rw (e, here))
      | inr other ↦ (c ∷ part, parts, rw (e, other))
    ]

split_blank-append :
    (x s : Str) (b : ℕ)
    → is_blank b ≡ true
    → IsWord x
    → split_blank (x ++ b ∷ s) ≡ x ∷ split_blank s
unfolding split_blank
split_blank-append [] s b h w = let (part, parts, e) = split_blank_cons s in rw (e, h)
split_blank-append (c ∷ x) s b h w =
    let (c_word, x_word) = w in rw (split_blank-append x s b h x_word, c_word)

split_blank_of_IsWord : (x : Str) → IsWord x → split_blank x ≡ x ∷ []
unfolding split_blank
split_blank_of_IsWord [] w = refl
split_blank_of_IsWord (c ∷ x) w =
    let (c_word, x_word) = w in rw (split_blank_of_IsWord x x_word, c_word)

-- A space at the head is passed over.
pub fields_blank : (s : Str) (b : ℕ) → is_blank b ≡ true → fields (b ∷ s) ≡ fields s
unfolding fields not_empty
fields_blank s b h = rw (split_blank-append [] s b h tt)

-- A word before white space is the first field.
pub fields-append :
    (c : ℕ) (x s : Str) (b : ℕ)
    → is_blank b ≡ true
    → IsWord (c ∷ x)
    → fields ((c ∷ x) ++ b ∷ s) ≡ (c ∷ x) ∷ fields s
unfolding fields not_empty
fields-append c x s b h w = rw (split_blank-append (c ∷ x) s b h w)

pub fields_of_IsWord : (c : ℕ) (x : Str) → IsWord (c ∷ x) → fields (c ∷ x) ≡ (c ∷ x) ∷ []
unfolding fields not_empty
fields_of_IsWord c x w = rw (split_blank_of_IsWord (c ∷ x) w)

pub first_line-append : (x s : Str) → IsFree 10 x → first_line (x ++ 10 ∷ s) ≡ x
unfolding first_line
first_line-append x s h = rw (cut-append 10 x s h, first_line)
