-- ===== src/Nasc/Upstream.antt =====
-- upstreamClient of server/nasc.go: how the proxy finds an address of Pretendo that is not written as
-- FFE_PUBLIC_HOST is. Name resolution and dialling belong to package net.
mod Tests
use fbf_3ds_servers.Base.{
  ℕ, ◌≡◌, ◌≢◌, refl, ap, ◌∙◌, ◌⊎◌, inl, inr, Bool, true, false, Option, none, some, List, [], ◌∷◌,
  ◌++◌, Str, txt, str_beq, str_beq_iff, Env, env, if◌then◌else◌, Bool-cases, Option-cases, All,
  arith,
}

pub record Network : Type 1 where
  pub Conn : Type 0
  pub split_host_port : Str → Option (Str × Str)
  -- LookupHost of a resolver in Go, which asks the DNS server at the first address.
  pub lookup_host : Str → Str → Option (List Str)
  -- DialContext to an address and a port; none is an error.
  pub dial : Str → Str → Option Conn

-- The errors of DialContext: the text is no address, the name is not resolved, the last address did
-- not answer, or there was no address to dial.
pub data DialError : Type 0 where
  bad_address : DialError
  resolve : (host : Str) → DialError
  refused : (ip : Str) → DialError
  no_usable_address : (host : Str) → DialError

abbrev last_error : Str → Option Str → DialError
last_error host none = no_usable_address host
last_error host (some ip) = refused ip

-- The DNS server of upstreamResolver, whatever server the machine has.
abbrev pub upstream_resolver : Env → Str
upstream_resolver getenv = env getenv (txt "FFE_UPSTREAM_DNS") (txt "1.1.1.1:53")

module _ (net : Network) where
  open net use {Conn, split_host_port, lookup_host, dial}

  -- The loop over the addresses: the result, and the addresses that are dialled. `last` is the
  -- address of `lastErr`, and `own` is FFE_PUBLIC_HOST.
  unfoldable pub dial_ips : Str → Str → Str → Option Str → List Str → (DialError ⊎ Conn) × List Str
  dial_ips own host port last [] = (inl (last_error host last), [])
  dial_ips own host port last (ip ∷ ips) =
      let skipped = dial_ips own host port last ips in
      let rest = dial_ips own host port (some ip) ips in
      if str_beq ip own
      then skipped
      else elim (dial ip port) [ some conn ↦ (inr conn, ip ∷ []) | none ↦ (rest.0, ip ∷ rest.1) ]

  -- DialContext of upstreamClient.
  unfoldable pub dial_upstream : Env → Str → (DialError ⊎ Conn) × List Str
  unfolding dial_ips
  dial_upstream getenv addr = elim (split_host_port addr) [
    | none ↦ (inl bad_address, [])
    | some (host, port) ↦ elim (lookup_host (upstream_resolver getenv) host) [
      | none ↦ (inl (resolve host), [])
      | some ips ↦
          dial_ips (env getenv (txt "FFE_PUBLIC_HOST") (txt "10.0.0.95")) host port none ips
    ]
  ]

  -- The addresses that are not written as FFE_PUBLIC_HOST is.
  abbrev pub others : Str → List Str → List Str
  others own [] = []
  others own (ip ∷ ips) = if str_beq ip own then others own ips else ip ∷ others own ips

  -- The last of a list, or what there was before.
  abbrev pub last_of : Option Str → List Str → Option Str
  last_of last [] = last
  last_of last (ip ∷ ips) = last_of (some ip) ips

  -- An address answers, and those before it did not.
  pub record IsConnected (port : Str) (usable : List Str) (out : (DialError ⊎ Conn) × List Str)
      : Type 0 where
    pub before : List Str
    pub ip : Str
    pub after : List Str
    pub conn : Conn
    pub order : usable ≡ before ++ ip ∷ after
    pub failed : All (λ i. dial i port ≡ none) before
    pub answers : dial ip port ≡ some conn
    pub result : out ≡ (inr conn, before ++ ip ∷ [])

  -- No address answers.
  pub record IsRefused (host port : Str) (last : Option Str) (usable : List Str)
      (out : (DialError ⊎ Conn) × List Str) : Type 0 where
    pub failed : All (λ i. dial i port ≡ none) usable
    pub result : out ≡ (inl (last_error host (last_of last usable)), usable)

  dial_ips_cases :
      (own host port : Str) (last : Option Str) (ips : List Str)
      → IsConnected port (others own ips) (dial_ips own host port last ips)
        ⊎ IsRefused host port last (others own ips) (dial_ips own host port last ips)
  unfolding dial_ips
  dial_ips_cases own host port last [] = inr (record { failed = tt; result = refl })
  dial_ips_cases own host port last (ip ∷ ips) = elim (Bool-cases (str_beq ip own)) [
    | inl self ↦ rw self (dial_ips_cases own host port last ips)
    | inr other ↦ elim (Option-cases (dial ip port)) [
      | inr (conn, up) ↦
          rw (other, up, dial_ips)
            (inl (record {
              before = [];
              ip = ip;
              after = others own ips;
              conn = conn;
              order = refl;
              failed = tt;
              answers = up;
              result = refl;
            }))
      | inl closed ↦
          rw (other, closed, dial_ips)
            (elim (dial_ips_cases own host port (some ip) ips) [
              | inl c ↦ inl (record {
                before = ip ∷ c.before;
                ip = c.ip;
                after = c.after;
                conn = c.conn;
                order = ap (◌∷◌ ip) c.order;
                failed = (closed, c.failed);
                answers = c.answers;
                result = ap (λ r. (r.0, ip ∷ r.1)) c.result;
              })
              | inr r ↦ inr (record {
                failed = (closed, r.failed);
                result = ap (λ r'. (r'.0, ip ∷ r'.1)) r.result;
              })
            ])
    ]
  ]

  dial_ips-others :
      (own host port : Str) (last : Option Str) (ips : List Str)
      → All (λ ip. ip ≢ own) (dial_ips own host port last ips).1
  unfolding dial_ips
  dial_ips-others own host port last [] = tt
  dial_ips-others own host port last (ip ∷ ips) = elim (Bool-cases (str_beq ip own)) [
    | inl self ↦ rw self (dial_ips-others own host port last ips)
    | inr other ↦
        let apart : ip ≢ own = λ e. ground (arith, str_beq_iff ip own) in
        elim (Option-cases (dial ip port)) [
          | inr (conn, up) ↦ rw (other, up, dial_ips) (apart, tt)
          | inl closed ↦
              rw (other, closed, dial_ips) (apart, dial_ips-others own host port (some ip) ips)
        ]
  ]

  -- Where the DNS server of FFE_UPSTREAM_DNS, or 1.1.1.1:53, resolves the name, the addresses but
  -- those that are written as FFE_PUBLIC_HOST is, or as 10.0.0.95, are dialled in their order until
  -- one answers, and its connection is the result; if none answers, all of them were dialled, and
  -- the error is that of the last one, or that there was none. No address that is written as
  -- FFE_PUBLIC_HOST is dialled.
  pub dial_upstream_lem :
      (getenv : Env) (addr host port : Str) (ips : List Str)
      → split_host_port addr ≡ some (host, port)
      → lookup_host (upstream_resolver getenv) host ≡ some ips
      → (IsConnected port
            (others (env getenv (txt "FFE_PUBLIC_HOST") (txt "10.0.0.95")) ips)
            (dial_upstream getenv addr)
          ⊎ IsRefused host port none
              (others (env getenv (txt "FFE_PUBLIC_HOST") (txt "10.0.0.95")) ips)
              (dial_upstream getenv addr))
        × All
            (λ ip. ip ≢ env getenv (txt "FFE_PUBLIC_HOST") (txt "10.0.0.95"))
            (dial_upstream getenv addr).1
  unfolding dial_upstream
  dial_upstream_lem getenv addr host port ips h k =
      let own = env getenv (txt "FFE_PUBLIC_HOST") (txt "10.0.0.95") in
      rw (h, dial_upstream, k)
        (dial_ips_cases own host port none ips, dial_ips-others own host port none ips)
