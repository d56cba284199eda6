-- ===== src/Base/Int.antt =====
-- Signed integers over the native numbers, and strconv.Atoi.
use Prim.Native.Nat.{ℕ, ◌-◌, ◌^◌}
use mathlib.Core.Option.{Option, none, some}
use mathlib.Core.List.{[], ◌∷◌}
use fbf_3ds_servers.Base.Tests.{ltb, leb, nat_beq, if◌then◌else◌}
use fbf_3ds_servers.Base.Text.{Str}
use fbf_3ds_servers.Base.Decimal.{parse_digits}

-- `negsuc n` is -(n + 1).
pub data ℤ : Type 0 where
  pos : ℕ → ℤ
  negsuc : ℕ → ℤ

-- The digits after a sign: one at least.
digits_value : Str → Option ℕ
unfolding parse_digits
digits_value [] = none
digits_value (c ∷ s) = parse_digits 0 (c ∷ s)

atoi_pos : Str → Option ℤ
unfolding digits_value
atoi_pos s = elim (digits_value s) [
  | none ↦ none
  | some n ↦ if ltb n (2 ^ 63) then some (pos n) else none
]

atoi_neg : Str → Option ℤ
unfolding digits_value
atoi_neg s = elim (digits_value s) [
  | none ↦ none
  | some n ↦
      if nat_beq n 0 then some (pos 0) else if leb n (2 ^ 63) then some (negsuc (n - 1)) else none
]

-- strconv.Atoi: an optional sign, then decimal digits; `none` is an error (syntax, or out of the
-- range of int64).
unfoldable pub atoi : Str → Option ℤ
unfolding atoi_pos atoi_neg
atoi [] = none
atoi (c ∷ s) =
    if nat_beq c b'-' then atoi_neg s else if nat_beq c b'+' then atoi_pos s else atoi_pos (c ∷ s)
