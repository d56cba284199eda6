-- ===== src/Browse/Attributes.antt =====
-- Which attributes of a search are blanked.
use mathlib.Core.Option
use fbf_3ds_servers.Base.{
  ℕ, zero, suc, ℤ, pos, negsuc, ◌≡◌, refl, Bool, false, ◌||◌, List, [], ◌∷◌, Str, get_elem?,
  nat_beq, if◌then◌else◌, arith,
}
use fbf_3ds_servers.Browse.{set_empty, blank}

-- The index stands in the list of wildcards.
abbrev pub is_wildcard : ℕ → List ℤ → Bool
is_wildcard i [] = false
is_wildcard i (pos j ∷ js) = nat_beq j i || is_wildcard i js
is_wildcard i (negsuc j ∷ js) = is_wildcard i js

get_elem?-set_empty :
    (i j : ℕ) (attribs : List Str)
    → get_elem? (set_empty j attribs) i
      ≡ (if nat_beq j i then Option.map (λ a. []) (get_elem? attribs i) else get_elem? attribs i)
unfolding set_empty
get_elem?-set_empty i j [] = ground arith
get_elem?-set_empty zero zero (a ∷ attribs) = refl
get_elem?-set_empty (suc i) zero (a ∷ attribs) = ground arith
get_elem?-set_empty zero (suc j) (a ∷ attribs) = ground arith
get_elem?-set_empty (suc i) (suc j) (a ∷ attribs) = ground (arith, get_elem?-set_empty i j attribs)

-- After blanking, the attributes at the wildcard indices are empty, every other is as it was sent,
-- and none is added or removed; an index that is negative or out of range has no effect.
get_elem?-blank :
    (i : ℕ) (js : List ℤ) (attribs : List Str)
    → get_elem? (blank js attribs) i ≡ (
        if is_wildcard i js
        then Option.map (λ a. []) (get_elem? attribs i)
        else get_elem? attribs i)
unfolding blank
get_elem?-blank i [] attribs = refl
get_elem?-blank i (pos j ∷ js) attribs =
    ground (arith, get_elem?-blank i js (set_empty j attribs), get_elem?-set_empty i j attribs)
get_elem?-blank i (negsuc j ∷ js) attribs = get_elem?-blank i js attribs
