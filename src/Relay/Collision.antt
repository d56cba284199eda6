-- ===== src/Relay/Collision.antt =====
-- The pool of addresses with three consoles that are all linked with one another.
use mathlib.Core.Path.{subst}
use fbf_3ds_servers.Base.{
  ℕ, ◌≡◌, ◌≢◌, ◌⊎◌, ◌∙◌, ◌<◌, sym, none, some, lookup, str_eq, length, arith,
}
use fbf_3ds_servers.Relay.{RelayLink, RelayManager, Sockets, pair_key, link}
use fbf_3ds_servers.Relay.Keys.{pair_key_iff}
use fbf_3ds_servers.Relay.Links.{link_keeps}
use fbf_3ds_servers.Relay.Hosts.{IsPool, link-host_seq, hosts_meet}

pair_key_ne :
    (a b c d : ℕ) → ¬ (((a ≡ c) × (b ≡ d)) ⊎ ((a ≡ d) × (b ≡ c))) → pair_key a b ≢ pair_key c d
pair_key_ne a b c d h = λ e. h ((pair_key_iff a b c d).0 e)

module _ (net : Sockets) where
  open net use {Os}

  -- A pool of two different addresses does not suffice for three different consoles: if the links
  -- a-b, b-c and a-c are new and asked for in this order, and a-b and a-c can be opened, then `a`
  -- is given the same address for `b` and for `c`.
  pub three_consoles :
      (a b c : ℕ) (rm : RelayManager) (os os' os'' : Os) {ab ac : RelayLink}
      → a ≢ b
      → b ≢ c
      → a ≢ c
      → IsPool rm.hosts
      → length rm.hosts ≡ 2
      → lookup (pair_key a b) rm.links ≡ none
      → lookup (pair_key b c) rm.links ≡ none
      → lookup (pair_key a c) rm.links ≡ none
      → (link net a b rm os).0 ≡ some ab
      → (link net a c (link net b c (link net a b rm os).1 os').1 os'').0 ≡ some ac
      → ab.host ≡ ac.host
  three_consoles a b c rm os os' os'' {ab} {ac} p q r pool two new_ab new_bc new_ac h h' =
      let rm1 = (link net a b rm os).1 in
      let rm2 = (link net b c rm1 os').1 in
      let first = link-host_seq net a b rm os pool.some_host new_ab in
      let bc_new : lookup (pair_key b c) rm1.links ≡ none =
        link_keeps net a b b c rm os (pair_key_ne a b b c (λ e. ground arith)) ∙ new_bc in
      let second =
        link-host_seq net b c rm1 os' (subst (λ hs. 0 < length hs) (sym first.1) pool.some_host)
          bc_new in
      let ac_new : lookup (pair_key a c) rm2.links ≡ none =
        link_keeps net b c a c rm1 os' (pair_key_ne b c a c (λ e. ground arith))
        ∙ link_keeps net a b a c rm os (pair_key_ne a b a c (λ e. ground arith))
        ∙ new_ac in
      hosts_meet net a b a c rm rm2 os os'' pool (second.1 ∙ first.1) (omega arith) new_ab ac_new h
        h'
