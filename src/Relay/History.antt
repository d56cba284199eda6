-- ===== src/Relay/History.antt =====
-- The relay over its whole life: changes of the pool, and calls of link, in any order.
use fbf_3ds_servers.Base.{
  ℕ, ◌≡◌, ap, ◌∙◌, inl, inr, Option, some, List, [], ◌∷◌, Str, str_eq, str_beq, str_beq_iff, str_ne,
  lookup, Bool-cases,
}
use fbf_3ds_servers.Relay.{
  RelayLink, RelayManager, Sockets, pair_key, new_relay_manager, set_hosts, link,
}
use fbf_3ds_servers.Relay.Keys.{pair_key_comm}
use fbf_3ds_servers.Relay.Links.{
  IsValid, Joins, link_found, link_stored, link_keeps, link-IsValid, link-Joins,
}

pub data Call : Type 0 where
  new_pool : List Str → Call
  wanted : ℕ → ℕ → Call

module _ (net : Sockets) where
  unfoldable pub calls : List Call → RelayManager → net.Os → RelayManager × net.Os
  calls [] rm os = (rm, os)
  calls (new_pool hosts ∷ cs) rm os = calls cs (set_hosts hosts rm) os
  calls (wanted a b ∷ cs) rm os = calls cs (link net a b rm os).1 (link net a b rm os).2

  link_unmoved :
      (a b c d : ℕ) (rm : RelayManager) (os : net.Os) {l : RelayLink}
      → lookup (pair_key c d) rm.links ≡ some l
      → lookup (pair_key c d) (link net a b rm os).1.links ≡ some l
  link_unmoved a b c d rm os e = elim (Bool-cases (str_beq (pair_key a b) (pair_key c d))) [
    | inl same ↦
        let one = (str_beq_iff (pair_key a b) (pair_key c d)).0 same in
        ap (λ r. lookup (pair_key c d) r.1.links)
          (link_found net a b rm os (ap (λ k. lookup k rm.links) one ∙ e))
        ∙ e
    | inr other ↦ link_keeps net a b c d rm os (str_ne _ _ other) ∙ e
  ]

  pub calls-unmoved :
      (cs : List Call) (c d : ℕ) (rm : RelayManager) (os : net.Os) {l : RelayLink}
      → lookup (pair_key c d) rm.links ≡ some l
      → lookup (pair_key c d) (calls cs rm os).0.links ≡ some l
  unfolding calls set_hosts
  calls-unmoved [] c d rm os e = e
  calls-unmoved (new_pool hosts ∷ cs) c d rm os e = calls-unmoved cs c d (set_hosts hosts rm) os e
  calls-unmoved (wanted a b ∷ cs) c d rm os e =
      calls-unmoved cs c d (link net a b rm os).1 (link net a b rm os).2
        (link_unmoved a b c d rm os e)

  calls-IsValid :
      (cs : List Call) (rm : RelayManager) (os : net.Os) → IsValid rm → IsValid (calls cs rm os).0
  unfolding calls set_hosts
  calls-IsValid [] rm os v = v
  calls-IsValid (new_pool hosts ∷ cs) rm os v = calls-IsValid cs (set_hosts hosts rm) os v
  calls-IsValid (wanted a b ∷ cs) rm os v =
      calls-IsValid cs (link net a b rm os).1 (link net a b rm os).2 (link-IsValid net a b rm os v)

  new-IsValid : (host : Str) → IsValid (new_relay_manager host)
  unfolding new_relay_manager lookup
  new-IsValid host k l h = cc

  -- What a call of link answers for two consoles, after other calls from a new manager on.
  abbrev pub asked : Str → net.Os → List Call → ℕ → ℕ → Option RelayLink × RelayManager × net.Os
  asked host os cs a b = let (rm, os') = calls cs (new_relay_manager host) os in link net a b rm os'

  -- The manager and the system after further calls.
  abbrev pub later : Str → net.Os → List Call → ℕ → ℕ → List Call → RelayManager × net.Os
  later host os before a b after =
      calls after (asked host os before a b).1 (asked host os before a b).2

  -- The answer where the link is there already.
  abbrev pub Again : RelayLink → ℕ → ℕ → RelayManager × net.Os → Type 0
  Again l a b (rm, os) = link net a b rm os ≡ (some l, rm, os)

  -- From a new manager on, whatever links were asked for, whatever pools were set, and wherever
  -- sockets could not be opened: a link that is given for two consoles joins these two, and it is
  -- theirs from then on. After any further calls, asking for the two in either order gives it again,
  -- opens no socket and changes nothing.
  pub calls_once :
      (host : Str) (os : net.Os) (before after : List Call) (a b : ℕ) {l : RelayLink}
      → (asked host os before a b).0 ≡ some l
      → Joins l a b
        × Again l a b (later host os before a b after)
        × Again l b a (later host os before a b after)
  calls_once host os before after a b {l} given =
      let rm0 = (calls before (new_relay_manager host) os).0 in
      let os0 = (calls before (new_relay_manager host) os).1 in
      let (rm, os') = later host os before a b after in
      let kept =
        calls-unmoved after a b (asked host os before a b).1 (asked host os before a b).2
          (link_stored net a b rm0 os0 given) in
      (
        link-Joins net a b rm0 os0
            (calls-IsValid before (new_relay_manager host) os (new-IsValid host)) given,
        link_found net a b rm os' kept,
        link_found net b a rm os' (rw (pair_key_comm b a) kept),
      )
