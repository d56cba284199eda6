-- ===== src/Base/Decimal.antt =====
-- strconv.FormatUint(n, 10), `%d`, and strconv.ParseUint(s, 10, bits).
use Prim.Native.Nat.{ℕ, zero, suc, ◌+◌, ◌-◌, ◌*◌, ◌/◌, ◌%◌, ◌^◌, ◌≤◌, ◌<◌}
use mathlib.Core.Path.{◌≡◌}
use mathlib.Core.Logic.{inl, inr}
use mathlib.Core.Bool.{Bool, ◌&&◌}
use mathlib.Core.Option.{Option, none, some}
use mathlib.Core.List.{[], ◌∷◌, ◌++◌}
use native.Mathlib.Omega.{arith}
use fbf_3ds_servers.Base.Tests.{ltb, leb, if◌then◌else◌, Bool-cases, lt→ltb}
use fbf_3ds_servers.Base.Lists.{All, All-append}
use fbf_3ds_servers.Base.Text.{Str}

-- The digits of `n`, most significant first; the fuel is a number above `n`.
dec_digits : ℕ → ℕ → Str
dec_digits zero n = []
dec_digits (suc f) n =
    let rest = dec_digits f (n / 10) in
    if ltb n 10 then (48 + n) ∷ [] else rest ++ (48 + n % 10) ∷ []

unfoldable pub format_uint : ℕ → Str
unfolding dec_digits
format_uint n = dec_digits (suc n) n

abbrev pub is_digit : ℕ → Bool
is_digit c = leb 48 c && leb c 57

unfoldable pub parse_digits : ℕ → Str → Option ℕ
parse_digits acc [] = some acc
parse_digits acc (c ∷ s) = if is_digit c then parse_digits (acc * 10 + (c - 48)) s else none

-- The value if it fits into `bits` bits; `none` is Go's error (syntax or range).
unfoldable pub parse_uint : ℕ → Str → Option ℕ
unfolding parse_digits
parse_uint bits [] = none
parse_uint bits (c ∷ s) = elim (parse_digits 0 (c ∷ s)) [
  | none ↦ none
  | some n ↦ if ltb n (2 ^ bits) then some n else none
]

-- The loop of ParseUint(s, 10, 64), as the number that it returns beside an error: 0 at a character
-- that is no digit, and the greatest number of 64 bits as soon as the value does not fit, whatever
-- follows.
saturate : ℕ → Str → ℕ
saturate n [] = n
saturate n (c ∷ s) =
    let next = n * 10 + (c - 48) in
    let rest = saturate next s in
    if is_digit c then (if ltb next (2 ^ 64) then rest else 18446744073709551615) else 0

unfoldable pub saturated : Str → ℕ
unfolding saturate
saturated [] = 0
saturated (c ∷ s) = saturate 0 (c ∷ s)

parse_digits-append :
    (acc : ℕ) (x y : Str) {n : ℕ}
    → parse_digits acc x ≡ some n
    → parse_digits acc (x ++ y) ≡ parse_digits n y
unfolding parse_digits
parse_digits-append acc [] y {n} h = ground arith
parse_digits-append acc (c ∷ x) y {n} h =
    let rest = parse_digits-append (acc * 10 + (c - 48)) x y {n = n} in ground (arith, rest)

parse_digits-dec_digits : (f n : ℕ) → n < f → parse_digits 0 (dec_digits f n) ≡ some n
unfolding parse_digits dec_digits
parse_digits-dec_digits zero n h = absurd (omega arith)
parse_digits-dec_digits (suc f) n h = elim (Bool-cases (ltb n 10)) [
  | inl small ↦ ground arith
  | inr big ↦
      rw
        (
          big,
          parse_digits-append 0 (dec_digits f (n / 10)) ((48 + n % 10) ∷ [])
              (parse_digits-dec_digits f (n / 10) (ground arith)),
        )
        (ground arith)
]

dec_digits_cons : (f n : ℕ) → n < f → (c : ℕ) × (s : Str) × (dec_digits f n ≡ c ∷ s)
unfolding dec_digits
dec_digits_cons zero n h = absurd (omega arith)
dec_digits_cons (suc f) n h = elim (Bool-cases (ltb n 10)) [
  | inl small ↦ (48 + n, [], rw small)
  | inr big ↦
      let (c, s, e) = dec_digits_cons f (n / 10) (ground arith) in
      (c, s ++ (48 + n % 10) ∷ [], rw (big, e))
]

-- A number below 2 ^ bits is read back from its decimal text.
pub parse_uint-format_uint : (bits n : ℕ) → n < 2 ^ bits → parse_uint bits (format_uint n) ≡ some n
unfolding parse_uint format_uint
parse_uint-format_uint bits n h =
    let (c, s, e) = dec_digits_cons (suc n) n (omega arith) in
    let p = parse_digits-dec_digits (suc n) n (omega arith) in ground (arith, lt→ltb n (2 ^ bits) h)

pub format_uint_injective : (n m : ℕ) → format_uint n ≡ format_uint m → n ≡ m
unfolding format_uint
format_uint_injective n m e =
    let p = parse_digits-dec_digits (suc n) n (omega arith) in
    let q = parse_digits-dec_digits (suc m) m (omega arith) in cc

abbrev pub IsDigit : ℕ → Type 0
IsDigit c = (48 ≤ c) × (c ≤ 57)

dec_digits-IsDigit : (f n : ℕ) → All IsDigit (dec_digits f n)
unfolding dec_digits
dec_digits-IsDigit zero n = tt
dec_digits-IsDigit (suc f) n = elim (Bool-cases (ltb n 10)) [
  | inl small ↦ rw small (ground arith)
  | inr big ↦
      rw big (
        All-append IsDigit (dec_digits f (n / 10)) _ (dec_digits-IsDigit f (n / 10)) (ground arith))
]

pub format_uint-IsDigit : (n : ℕ) → All IsDigit (format_uint n)
unfolding format_uint
format_uint-IsDigit n = dec_digits-IsDigit (suc n) n

pub parse_uint-lt : (bits : ℕ) (s : Str) {n : ℕ} → parse_uint bits s ≡ some n → n < 2 ^ bits
unfolding parse_uint
parse_uint-lt bits [] h = ground arith
parse_uint-lt bits (c ∷ s) h = ground arith

parse_digits-le : (n : ℕ) (s : Str) {v : ℕ} → parse_digits n s ≡ some v → n ≤ v
unfolding parse_digits
parse_digits-le n [] h = ground arith
parse_digits-le n (c ∷ s) {v} h = elim (Bool-cases (is_digit c)) [
  | inl digit ↦
      let rest = parse_digits-le (n * 10 + (c - 48)) s {v = v} (rw digit at h) in omega arith
  | inr other ↦ absurd (ground arith)
]

saturate-parse_digits :
    (n : ℕ) (s : Str) {v : ℕ} → parse_digits n s ≡ some v → v < 2 ^ 64 → saturate n s ≡ v
unfolding parse_digits saturate
saturate-parse_digits n [] h fits = ground arith
saturate-parse_digits n (c ∷ s) {v} h fits = elim (Bool-cases (is_digit c)) [
  | inl digit ↦
      let read = rw digit at h in
      let below = parse_digits-le (n * 10 + (c - 48)) s {v = v} read in
      let small = lt→ltb (n * 10 + (c - 48)) (2 ^ 64) (omega arith) in
      rw (digit, small) (saturate-parse_digits (n * 10 + (c - 48)) s {v = v} read fits)
  | inr other ↦ absurd (ground arith)
]

pub saturated-format_uint : (n : ℕ) → n < 2 ^ 64 → saturated (format_uint n) ≡ n
unfolding saturated format_uint
saturated-format_uint n h =
    let (c, s, e) = dec_digits_cons (suc n) n (omega arith) in
    let p = parse_digits-dec_digits (suc n) n (omega arith) in
    rw e (saturate-parse_digits 0 (c ∷ s) (rw e at p) h)

pub format_uint_cons : (n : ℕ) → (c : ℕ) × (s : Str) × (format_uint n ≡ c ∷ s)
unfolding format_uint
format_uint_cons n = dec_digits_cons (suc n) n (omega arith)
