-- ===== src/Nasc/RawWire.antt =====
-- A reader that splits at `&` and cuts at `=` gets back what writeRawOrdered wrote.
use mathlib.Core.List.{append-nil}
use mathlib.Core.Path.{ap₂}
use fbf_3ds_servers.Base.{
  ℕ, ◌≡◌, ◌≢◌, refl, ap, ◌∙◌, some, List, [], ◌∷◌, ◌++◌, map, Str, IsFree, All, All-append, cut,
  cut-append, split, split-append, split_of_IsFree, arith,
}
use fbf_3ds_servers.Nasc.Wire.{Values, get, pair_of, raw_tail, raw_ordered}

-- Keys without `&` and `=`, and values without `&`.
abbrev pub IsWritable : Values → Str → Type 0
IsWritable v k = IsFree b'&' k × IsFree b'=' k × IsFree b'&' (get v k)

IsFree-append : (b : ℕ) (x y : Str) → IsFree b x → IsFree b y → IsFree b (x ++ y)
IsFree-append b = All-append (λ c. c ≢ b)

module _ (v : Values) where
  pair_IsFree : (k : Str) → IsWritable v k → IsFree b'&' (pair_of v k)
  unfolding pair_of
  pair_IsFree k h = IsFree-append b'&' k _ h.0 (omega arith, h.2)

  split-raw_tail :
      (pre : Str) (ks : List Str)
      → IsFree b'&' pre
      → All (IsWritable v) ks
      → split b'&' (pre ++ raw_tail ks v) ≡ pre ∷ map (pair_of v) ks
  unfolding raw_tail
  split-raw_tail pre [] p h = ap (split b'&') (append-nil pre) ∙ split_of_IsFree b'&' pre p
  split-raw_tail pre (k ∷ ks) p h =
      split-append b'&' pre _ p
      ∙ ap (◌∷◌ pre) (split-raw_tail (pair_of v k) ks (pair_IsFree k h.0) h.1)

  cut_pairs :
      (ks : List Str)
      → All (IsWritable v) ks
      → map (cut b'=') (map (pair_of v) ks) ≡ map (λ k. some (k, get v k)) ks
  unfolding pair_of
  cut_pairs [] h = refl
  cut_pairs (k ∷ ks) h = ap₂ ◌∷◌ (cut-append b'=' k (get v k) h.0.1) (cut_pairs ks h.1)

  -- Where no key holds `&` or `=` and no value holds `&`, the text splits at `&` and cuts at `=`
  -- into the pairs in the order in which they were written, each with its value untouched.
  pub read-raw_ordered :
      (k : Str) (ks : List Str)
      → All (IsWritable v) (k ∷ ks)
      → map (cut b'=') (split b'&' (raw_ordered (k ∷ ks) v))
        ≡ map (λ key. some (key, get v key)) (k ∷ ks)
  unfolding raw_ordered
  read-raw_ordered k ks h =
      ap (map (cut b'=')) (split-raw_tail (pair_of v k) ks (pair_IsFree k h.0) h.1)
      ∙ cut_pairs (k ∷ ks) h
