-- ===== src/Relay/Pairs.antt =====
-- The relay seen from outside: a partial map from unordered pairs of consoles to links. The key's
-- text and the order of the two PIDs are forgotten.
use mathlib.Core.Path.{subst}
use mathlib.Core.Quot
use mathlib.Core.Quot.{Quot}
use native.Mathlib.Nat.{ℕ_set}
use fbf_3ds_servers.Base.{
  ℕ, ◌≡◌, ◌≢◌, sym, ap, ◌∙◌, ◌⊎◌, inl, inr, Option, none, some, str_eq, lookup, Option-cases,
}
use fbf_3ds_servers.Relay.{RelayLink, RelayManager, Sockets, pair_key, link}
use fbf_3ds_servers.Relay.Keys.{pair_key_iff}
use fbf_3ds_servers.Relay.Links.{link_found, link_new, link_stored, link_keeps, next_host-links}

-- The same two consoles, in either order.
abbrev pub SamePair : ℕ × ℕ → ℕ × ℕ → Type 0
SamePair (a, b) (c, d) = ((a ≡ c) × (b ≡ d)) ⊎ ((a ≡ d) × (b ≡ c))

abbrev pub Pair : Type 0
Pair = Quot SamePair

links-set : IsSet (Option RelayLink)
links-set = hlevel ℕ_set

abbrev pub Links : Type 0
Links = Pair → Option RelayLink

-- The link of each pair. The key is the same for both orders.
pub view : RelayManager → Links
view rm =
    Quot.lift links-set (λ p. lookup (pair_key p.0 p.1) rm.links)
      (λ p q same. ap (λ k. lookup k rm.links) ((pair_key_iff p.0 p.1 q.0 q.1).1 same))

-- What asking for the link of a pair may do to the map, with the answer: a link that is there is
-- given, and a new one is opened or not; no other pair is touched.
pub data Asks : Links → Pair → Option RelayLink → Links → Type 0 where
  given :
      {before after : Links} {q : Pair} {l : RelayLink}
      → before q ≡ some l
      → ((p : Pair) → after p ≡ before p)
      → Asks before q (some l) after
  opened :
      {before after : Links} {q : Pair} {l : RelayLink}
      → before q ≡ none
      → after q ≡ some l
      → ((p : Pair) → p ≢ q → after p ≡ before p)
      → Asks before q (some l) after
  failed :
      {before after : Links} {q : Pair}
      → before q ≡ none
      → ((p : Pair) → after p ≡ before p)
      → Asks before q none after

module _ (net : Sockets) where
  view_keeps :
      (a b : ℕ) (rm : RelayManager) (os : net.Os) (p : Pair)
      → p ≢ Quot.mk (a, b)
      → view (link net a b rm os).1 p ≡ view rm p
  unfolding view
  view_keeps a b rm os =
      Quot.ind (λ p. hlevel links-set)
        (λ (c, d) other.
          link_keeps net a b c d rm os (λ e. other (sym (Quot.sound ((pair_key_iff a b c d).0 e)))))

  view_same : (rm rm' : RelayManager) → rm'.links ≡ rm.links → (p : Pair) → view rm' p ≡ view rm p
  unfolding view
  view_same rm rm' e =
      Quot.ind (λ p. hlevel links-set) (λ p. ap (λ m. lookup (pair_key p.0 p.1) m) e)

  answered :
      (a b : ℕ) (rm : RelayManager) (os : net.Os) {o : Option RelayLink}
      → (link net a b rm os).0 ≡ o
      → Asks (view rm) (Quot.mk (a, b)) o (view (link net a b rm os).1)
      → Asks (view rm) (Quot.mk (a, b)) (link net a b rm os).0 (view (link net a b rm os).1)
  answered a b rm os e =
      subst (λ o. Asks (view rm) (Quot.mk (a, b)) o (view (link net a b rm os).1)) (sym e)

  -- `link` refines the map from unordered pairs: whatever the sockets do, a call for two consoles
  -- gives the link that their pair has and leaves the map as it is, or opens one, which the pair has
  -- from then on, or fails and leaves the map as it is. No other pair's link is touched.
  pub link-Asks :
      (a b : ℕ) (rm : RelayManager) (os : net.Os)
      → Asks (view rm) (Quot.mk (a, b)) (link net a b rm os).0 (view (link net a b rm os).1)
  unfolding view
  link-Asks a b rm os = elim (Option-cases (lookup (pair_key a b) rm.links)) [
    | inr (l, old) ↦
        let same = link_found net a b rm os old in
        answered a b rm os (ap (λ r. r.0) same)
          (given old (view_same rm (link net a b rm os).1 (ap (λ r. r.1.links) same)))
    | inl new ↦ elim (link_new net a b rm os new) [
      | inl (e, same) ↦ answered a b rm os e (
          failed new
            (view_same rm (link net a b rm os).1 (ap (λ m. m.links) same ∙ next_host-links net rm)))
      | inr (pa, pb, e, _) ↦
          answered a b rm os e (opened new (link_stored net a b rm os e) (view_keeps a b rm os))
    ]
  ]
