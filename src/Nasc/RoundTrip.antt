-- ===== src/Nasc/RoundTrip.antt =====
-- Nintendo's base64 is read back, and its alphabet is safe between `&` and `=`.
use mathlib.Core.Path.{ap₂}
use fbf_3ds_servers.Base.{
  ℕ, ◌+◌, ◌*◌, ◌/◌, ◌%◌, ◌<◌, ◌≡◌, ◌≢◌, refl, ap, ◌∙◌, none, some, [], ◌∷◌, map, Str, All, arith,
}
use fbf_3ds_servers.Nasc.Base64.{
  digit64, value64, encode, decode_quads, drop_breaks, decode, nin_out, nin_in, nin_b64_encode,
  nin_b64_decode_string,
}

abbrev pub IsByte : ℕ → Type 0
IsByte b = b < 256

value64-digit64 : (v : ℕ) → v < 64 → value64 (digit64 v) ≡ some v
unfolding value64 digit64
value64-digit64 v h = ground arith

-- What stands in an encoded text: no line break, and none of the three letters that replace others.
abbrev IsPlain : ℕ → Type 0
IsPlain c = (c ≢ 10) × (c ≢ 13) × (c ≢ b'.') × (c ≢ b'-') × (c ≢ b'*') × (c ≢ b'&') × (c ≢ b'%')

digit64-IsPlain : (v : ℕ) → v < 64 → IsPlain (digit64 v)
unfolding digit64
digit64-IsPlain v h = ground arith

encode-IsPlain : (s : Str) → All IsByte s → All IsPlain (encode s)
unfolding encode
encode-IsPlain [] h = tt
encode-IsPlain (a ∷ []) h = (
  digit64-IsPlain (a / 4) (omega arith),
  (digit64-IsPlain (a % 4 * 16) (omega arith), omega arith),
)
encode-IsPlain (a ∷ b ∷ []) h = (
  digit64-IsPlain (a / 4) (omega arith),
  (
    digit64-IsPlain (a % 4 * 16 + b / 16) (omega arith),
    (digit64-IsPlain (b % 16 * 4) (omega arith), omega arith),
  ),
)
encode-IsPlain (a ∷ b ∷ c ∷ s) h = (
  digit64-IsPlain (a / 4) (omega arith),
  (
    digit64-IsPlain (a % 4 * 16 + b / 16) (omega arith),
    (
      digit64-IsPlain (b % 16 * 4 + c / 64) (omega arith),
      (digit64-IsPlain (c % 64) (omega arith), encode-IsPlain s h.1.1.1),
    ),
  ),
)

nin_in-nin_out : (c : ℕ) → IsPlain c → nin_in (nin_out c) ≡ c
unfolding nin_in nin_out
nin_in-nin_out c h = ground arith

value64_pad : value64 b'=' ≡ none
unfolding value64
value64_pad = refl

decode_quads-encode : (s : Str) → All IsByte s → decode_quads (encode s) ≡ some s
unfolding encode decode_quads
decode_quads-encode [] h = refl
decode_quads-encode (a ∷ []) h =
    rw
      (
        value64-digit64 (a / 4) (omega arith),
        value64-digit64 (a % 4 * 16) (omega arith),
        value64_pad,
      )
      (ap (λ x. some (x ∷ [])) (omega arith))
decode_quads-encode (a ∷ b ∷ []) h =
    rw
      (
        value64-digit64 (a / 4) (omega arith),
        value64-digit64 (a % 4 * 16 + b / 16) (omega arith),
        value64-digit64 (b % 16 * 4) (omega arith),
        value64_pad,
      )
      (ap₂ (λ x y. some (x ∷ y ∷ [])) (omega arith) (omega arith))
decode_quads-encode (a ∷ b ∷ c ∷ s) h =
    rw
      (
        value64-digit64 (a / 4) (omega arith),
        value64-digit64 (a % 4 * 16 + b / 16) (omega arith),
        value64-digit64 (b % 16 * 4 + c / 64) (omega arith),
        value64-digit64 (c % 64) (omega arith),
        decode_quads-encode s h.1.1.1,
      )
      (ap₂ (λ x r. some (x ∷ r)) (omega arith) (ap₂ (λ y z. y ∷ z ∷ s) (omega arith) (omega arith)))

drop_breaks-nin : (s : Str) → All IsPlain s → drop_breaks (map nin_in (map nin_out s)) ≡ s
unfolding drop_breaks
drop_breaks-nin [] h = refl
drop_breaks-nin (c ∷ s) h = rw (nin_in-nin_out c h.0) (ground (arith, drop_breaks-nin s h.1))

decode-nin_b64_encode : (s : Str) → All IsByte s → decode (map nin_in (nin_b64_encode s)) ≡ some s
unfolding decode nin_b64_encode
decode-nin_b64_encode s h =
    ap decode_quads (drop_breaks-nin (encode s) (encode-IsPlain s h)) ∙ decode_quads-encode s h

-- Whatever bytes are encoded, decoding gives them back.
pub nin_b64_decode_string-nin_b64_encode :
    (s : Str) → All IsByte s → nin_b64_decode_string (nin_b64_encode s) ≡ s
unfolding nin_b64_decode_string
nin_b64_decode_string-nin_b64_encode s h = rw (decode-nin_b64_encode s h, nin_b64_decode_string)

-- What may stand in a value that is written between `&` and `=` with no escapes.
abbrev pub IsRawSafe : ℕ → Type 0
IsRawSafe c = (c ≢ b'&') × (c ≢ b'=') × (c ≢ b'+') × (c ≢ b'%')

nin_out-IsRawSafe : (c : ℕ) → IsPlain c → IsRawSafe (nin_out c)
unfolding nin_out
nin_out-IsRawSafe c h = ground arith

map-nin_out-IsRawSafe : (s : Str) → All IsPlain s → All IsRawSafe (map nin_out s)
map-nin_out-IsRawSafe [] h = tt
map-nin_out-IsRawSafe (c ∷ s) h = (nin_out-IsRawSafe c h.0, map-nin_out-IsRawSafe s h.1)

pub nin_b64_encode-IsRawSafe : (s : Str) → All IsByte s → All IsRawSafe (nin_b64_encode s)
unfolding nin_b64_encode
nin_b64_encode-IsRawSafe s h = map-nin_out-IsRawSafe (encode s) (encode-IsPlain s h)
