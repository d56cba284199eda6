-- ===== src/Relay/Keys.antt =====
-- The keys of the map of links: one for each unordered pair of consoles.
use fbf_3ds_servers.Base.{
  ℕ, ◌≡◌, sym, ap, ◌∙◌, ◌↔◌, ◌⊎◌, [], ◌∷◌, ◌++◌, Str, cut, cut-append, IsFree, All, IsDigit,
  format_uint, format_uint-IsDigit, format_uint_injective, arith,
}
use fbf_3ds_servers.Relay.{pair_key}

digits_IsFree : (s : Str) → All IsDigit s → IsFree b'-' s
digits_IsFree [] h = tt
digits_IsFree (c ∷ s) h = (omega arith, digits_IsFree s h.1)

-- `pair_key` of the smaller and the greater number.
abbrev joined : ℕ → ℕ → Str
joined a b = format_uint a ++ (b'-' ∷ format_uint b)

joined_injective : (a b c d : ℕ) → joined a b ≡ joined c d → (a ≡ c) × (b ≡ d)
joined_injective a b c d e =
    let p =
      cut-append b'-' (format_uint a) (format_uint b) (digits_IsFree _ (format_uint-IsDigit a)) in
    let q =
      cut-append b'-' (format_uint c) (format_uint d) (digits_IsFree _ (format_uint-IsDigit c)) in
    let r = sym p ∙ ap (cut b'-') e ∙ q in
    (format_uint_injective a c (cc), format_uint_injective b d (cc))

pub pair_key_comm : (a b : ℕ) → pair_key a b ≡ pair_key b a
unfolding pair_key
pair_key_comm a b = ground arith

same_of_pair_key :
    (a b c d : ℕ) → pair_key a b ≡ pair_key c d → ((a ≡ c) × (b ≡ d)) ⊎ ((a ≡ d) × (b ≡ c))
unfolding pair_key
same_of_pair_key a b c d = ground (
  arith,
  joined_injective a b c d,
  joined_injective a b d c,
  joined_injective b a c d,
  joined_injective b a d c,
)

-- Two pairs of consoles have the same key exactly if they are the same pair, in either order.
pub pair_key_iff :
    (a b c d : ℕ) → (pair_key a b ≡ pair_key c d) ↔ (((a ≡ c) × (b ≡ d)) ⊎ ((a ≡ d) × (b ≡ c)))
unfolding pair_key
pair_key_iff a b c d = (same_of_pair_key a b c d, λ h. ground (arith, pair_key_comm a b))
