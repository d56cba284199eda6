-- ===== src/Nasc/Base64.antt =====
-- Nintendo's variant of base64 (server/nasc.go, ninB64Encode and ninB64DecodeString) over the
-- standard encoding of encoding/base64, with padding.
use fbf_3ds_servers.Base.{
  ℕ, ◌+◌, ◌-◌, ◌*◌, ◌/◌, ◌%◌, Bool, true, false, ◌||◌, ◌&&◌, Option, none, some, [], ◌∷◌, map, Str,
  nat_beq, ltb, leb, if◌then◌else◌,
}

-- The letter of a value below 64.
unfoldable pub digit64 : ℕ → ℕ
digit64 v =
    if ltb v 26
    then v + 65
    else if ltb v 52
    then v + 71
    else if ltb v 62
    then v - 4
    else if nat_beq v 62
    then b'+'
    else b'/'

-- The value of a letter.
unfoldable pub value64 : ℕ → Option ℕ
value64 c =
    if leb b'A' c && leb c b'Z'
    then some (c - 65)
    else if leb b'a' c && leb c b'z'
    then some (c - 71)
    else if leb b'0' c && leb c b'9'
    then some (c + 4)
    else if nat_beq c b'+'
    then some 62
    else if nat_beq c b'/'
    then some 63
    else none

-- StdEncoding.EncodeToString
unfoldable pub encode : Str → Str
encode [] = []
encode (a ∷ []) = digit64 (a / 4) ∷ digit64 (a % 4 * 16) ∷ b'=' ∷ b'=' ∷ []
encode (a ∷ b ∷ []) =
    digit64 (a / 4) ∷ digit64 (a % 4 * 16 + b / 16) ∷ digit64 (b % 16 * 4) ∷ b'=' ∷ []
encode (a ∷ b ∷ c ∷ s) =
    digit64 (a / 4)
    ∷ digit64 (a % 4 * 16 + b / 16)
    ∷ digit64 (b % 16 * 4 + c / 64)
    ∷ digit64 (c % 64)
    ∷ encode s

abbrev pub is_nil : Str → Bool
is_nil [] = true
is_nil (c ∷ s) = false

-- The end of a text: two letters and two pads.
abbrev pub last_one : ℕ → ℕ → ℕ → ℕ → Str → Option Str
last_one w x y z s =
    if nat_beq y b'=' && (nat_beq z b'=' && is_nil s) then some ((w * 4 + x / 16) ∷ []) else none

-- The end of a text: three letters and a pad.
abbrev pub last_two : ℕ → ℕ → ℕ → ℕ → Str → Option Str
last_two w x y z s =
    if nat_beq z b'=' && is_nil s
    then some ((w * 4 + x / 16) ∷ (x % 16 * 16 + y / 4) ∷ [])
    else none

abbrev pub three_more : ℕ → ℕ → ℕ → ℕ → Option Str → Option Str
three_more w x y z none = none
three_more w x y z (some rest) =
    some ((w * 4 + x / 16) ∷ (x % 16 * 16 + y / 4) ∷ (y % 4 * 64 + z) ∷ rest)

-- One group of four letters: their values, the last two letters, and what follows them with its
-- own result.
abbrev pub join_quad :
    Option ℕ → Option ℕ → Option ℕ → Option ℕ → ℕ → ℕ → Str → Option Str → Option Str
join_quad (some w) (some x) (some y) (some z) _ _ s rest = three_more w x y z rest
join_quad (some w) (some x) (some y) none _ z s rest = last_two w x y z s
join_quad (some w) (some x) none _ y z s rest = last_one w x y z s
join_quad _ _ _ _ _ _ _ _ = none

-- A text with no line breaks, in groups of four.
unfoldable pub decode_quads : Str → Option Str
decode_quads [] = some []
decode_quads (w ∷ x ∷ y ∷ z ∷ s) =
    join_quad (value64 w) (value64 x) (value64 y) (value64 z) y z s (decode_quads s)
decode_quads _ = none

-- Line breaks are passed over wherever they stand.
unfoldable pub drop_breaks : Str → Str
drop_breaks [] = []
drop_breaks (c ∷ s) = if nat_beq c 10 || nat_beq c 13 then drop_breaks s else c ∷ drop_breaks s

-- StdEncoding.DecodeString; none is an error.
unfoldable pub decode : Str → Option Str
decode s = decode_quads (drop_breaks s)

-- ninEncoder
unfoldable pub nin_out : ℕ → ℕ
nin_out c =
    if nat_beq c b'+'
    then b'.'
    else if nat_beq c b'/'
    then b'-'
    else if nat_beq c b'='
    then b'*'
    else c

-- ninDecoder
unfoldable pub nin_in : ℕ → ℕ
nin_in c =
    if nat_beq c b'.'
    then b'+'
    else if nat_beq c b'-'
    then b'/'
    else if nat_beq c b'*'
    then b'='
    else c

-- ninB64Encode
unfoldable pub nin_b64_encode : Str → Str
nin_b64_encode b = map nin_out (encode b)

-- ninB64DecodeString: an error gives the empty text.
unfoldable pub nin_b64_decode_string : Str → Str
nin_b64_decode_string s = elim (decode (map nin_in s)) [ none ↦ [] | some b ↦ b ]
