-- ===== src/Site/ClientIp.antt =====
-- The host that clientIP finds in the address of a connection.
use fbf_3ds_servers.Base.{
  ℕ, ◌≡◌, ◌≢◌, refl, none, some, [], ◌∷◌, ◌++◌, Str, All, IsFree, IsDigit, format_uint,
  format_uint-IsDigit, arith,
}
use fbf_3ds_servers.Site.Log.{before_last, client_ip}

before_last_of_IsFree : (b : ℕ) (s : Str) → IsFree b s → before_last b s ≡ none
unfolding before_last
before_last_of_IsFree b [] h = refl
before_last_of_IsFree b (c ∷ s) h = ground (arith, before_last_of_IsFree b s h.1)

before_last-append : (b : ℕ) (x y : Str) → IsFree b y → before_last b (x ++ b ∷ y) ≡ some x
unfolding before_last
before_last-append b [] y h = ground (arith, before_last_of_IsFree b y h)
before_last-append b (c ∷ x) y h = ground (arith, before_last-append b x y h)

digits-IsFree : (s : Str) → All IsDigit s → IsFree b':' s
digits-IsFree [] h = tt
digits-IsFree (c ∷ s) h = (omega arith, digits-IsFree s h.1)

-- Of the address that a host and a port make, clientIP gives the host, where that is not empty; the
-- host may have colons, as one of IPv6 does.
client_ip_of_host :
    (host : Str) (port : ℕ) → host ≢ [] → client_ip (host ++ b':' ∷ format_uint port) ≡ host
unfolding client_ip
client_ip_of_host [] port h = absurd (h refl)
client_ip_of_host (c ∷ host) port h = ground (
  arith,
  before_last-append b':' (c ∷ host) (format_uint port)
      (digits-IsFree _ (format_uint-IsDigit port)),
)
