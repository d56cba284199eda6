-- ===== src/Nasc/Wire.antt =====
-- url.Values and the two ways in which an answer is written (server/nasc.go, writeValues and
-- writeRawOrdered).
use Prim.Native.Nat.{compare, Ordering}
use fbf_3ds_servers.Base.{
  ℕ, ◌+◌, ◌-◌, ◌*◌, ◌/◌, ◌%◌, Bool, true, false, ◌||◌, ◌&&◌, Option, none, some, List, [], ◌∷◌,
  ◌++◌, Str, str_eq, nat_beq, ltb, leb, lookup, insert, contains, cut, split, if◌then◌else◌,
}

-- url.Values: the values of a key in their order.
abbrev pub Values : Type 0
Values = List (Str × List Str)

-- Values.Set
abbrev pub set : Str → Str → Values → Values
set k v m = insert k (v ∷ []) m

-- Values.Get
unfoldable pub get : Values → Str → Str
get m k = elim (lookup k m) [ none ↦ [] | some [] ↦ [] | some (v ∷ vs) ↦ v ]

-- `k=v`
unfoldable pub pair_of : Values → Str → Str
pair_of v k = k ++ (b'=' ∷ get v k)

unfoldable pub raw_tail : List Str → Values → Str
unfolding pair_of
raw_tail [] v = []
raw_tail (k ∷ ks) v = b'&' ∷ (pair_of v k ++ raw_tail ks v)

-- The text that writeRawOrdered builds: the pairs in the given order, joined by `&`.
unfoldable pub raw_ordered : List Str → Values → Str
unfolding raw_tail pair_of
raw_ordered [] v = []
raw_ordered (k ∷ ks) v = pair_of v k ++ raw_tail ks v

-- url.QueryEscape
abbrev is_unreserved : ℕ → Bool
is_unreserved c =
    (leb b'a' c && leb c b'z')
    || (leb b'A' c && leb c b'Z')
    || (leb b'0' c && leb c b'9')
    || nat_beq c b'-'
    || nat_beq c b'_'
    || nat_beq c b'.'
    || nat_beq c b'~'

abbrev hex_upper : ℕ → ℕ
hex_upper d = if ltb d 10 then d + 48 else d + 55

unfoldable pub query_escape : Str → Str
query_escape [] = []
query_escape (c ∷ s) =
    (if nat_beq c 32
      then b'+' ∷ []
      else if is_unreserved c
      then c ∷ []
      else b'%' ∷ hex_upper (c / 16) ∷ hex_upper (c % 16) ∷ [])
    ++ query_escape s

-- The order of keys: that of bytes.
abbrev str_leb : Str → Str → Bool
str_leb [] t = true
str_leb (c ∷ s) [] = false
str_leb (c ∷ s) (d ∷ t) = elim (compare c d) [
  | Ordering.lt ↦ true
  | Ordering.eq ↦ str_leb s t
  | Ordering.gt ↦ false
]

insert_key : Str × List Str → Values → Values
insert_key e [] = e ∷ []
insert_key e (f ∷ m) = if str_leb e.0 f.0 then e ∷ f ∷ m else f ∷ insert_key e m

sort_keys : Values → Values
unfolding insert_key
sort_keys [] = []
sort_keys (e ∷ m) = insert_key e (sort_keys m)

-- One key with its values, each behind `&`.
escaped_pairs : Str → List Str → Str
unfolding query_escape
escaped_pairs k [] = []
escaped_pairs k (v ∷ vs) =
    b'&' ∷ (query_escape k ++ (b'=' ∷ (query_escape v ++ escaped_pairs k vs)))

all_pairs : Values → Str
unfolding escaped_pairs
all_pairs [] = []
all_pairs ((k, vs) ∷ m) = escaped_pairs k vs ++ all_pairs m

abbrev drop_first : Str → Str
drop_first [] = []
drop_first (c ∷ s) = s

-- Values.Encode: sorted by key, with no `&` before the first pair.
unfoldable pub encode : Values → Str
unfolding all_pairs sort_keys
encode m = drop_first (all_pairs (sort_keys m))

abbrev unhex : ℕ → Option ℕ
unhex c =
    if leb b'0' c && leb c b'9'
    then some (c - 48)
    else if leb b'a' c && leb c b'f'
    then some (c - 87)
    else if leb b'A' c && leb c b'F'
    then some (c - 55)
    else none

abbrev cons_byte : Option ℕ → Option ℕ → Option Str → Option Str
cons_byte (some hi) (some lo) (some s) = some ((hi * 16 + lo) ∷ s)
cons_byte _ _ _ = none

abbrev cons_plain : ℕ → Option Str → Option Str
cons_plain c none = none
cons_plain c (some s) = some (c ∷ s)

-- url.QueryUnescape; none is an error.
unfoldable pub query_unescape : Str → Option Str
query_unescape [] = some []
query_unescape (c ∷ []) =
    if nat_beq c b'%' then none else some ((if nat_beq c b'+' then 32 else c) ∷ [])
query_unescape (c ∷ d ∷ []) =
    if nat_beq c b'%'
    then none
    else cons_plain (if nat_beq c b'+' then 32 else c) (query_unescape (d ∷ []))
query_unescape (c ∷ d ∷ e ∷ s) =
    let coded = cons_byte (unhex d) (unhex e) (query_unescape s) in
    let plain = cons_plain (if nat_beq c b'+' then 32 else c) (query_unescape (d ∷ e ∷ s)) in
    if nat_beq c b'%' then coded else plain

abbrev with_value : Str → Str → Values → Values
with_value k v m = elim (lookup k m) [
  | none ↦ insert k (v ∷ []) m
  | some vs ↦ insert k (vs ++ v ∷ []) m
]

-- `m[key] = append(m[key], value)`
abbrev add : Option Str → Option Str → Option Values → Option Values
add (some k) (some v) (some m) = some (with_value k v m)
add _ _ _ = none

abbrev cut_at : Str → Str × Str
cut_at part = elim (cut b'=' part) [ none ↦ (part, []) | some p ↦ p ]

-- The loop of url.ParseQuery over the parts; none is an error, which its one caller gives up on.
parse_parts : List Str → Option Values → Option Values
unfolding query_unescape
parse_parts [] m = m
parse_parts ([] ∷ parts) m = parse_parts parts m
parse_parts ((c ∷ part) ∷ parts) m = parse_parts parts (
    if contains (c ∷ part) (b';' ∷ [])
    then none
    else add (query_unescape (cut_at (c ∷ part)).0) (query_unescape (cut_at (c ∷ part)).1) m)

-- url.ParseQuery
unfoldable pub parse_query : Str → Option Values
unfolding parse_parts
parse_query s = parse_parts (split b'&' s) (some [])
