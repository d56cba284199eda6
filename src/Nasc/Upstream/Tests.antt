-- ===== src/Nasc/Upstream/Tests.antt =====
-- Three addresses: the server's own, one that does not answer, and one that does.
use fbf_3ds_servers.Base.{
  ◌≡◌, ◌≢◌, ◌⊎◌, inr, refl, Option, none, some, List, [], ◌∷◌, Str, txt, str_beq, str_eq, Env, env,
  if◌then◌else◌, All,
}
use fbf_3ds_servers.Nasc.Upstream.{
  Network, dial_ips, dial_upstream, others, IsConnected, IsRefused, dial_upstream_lem,
}

program : Unit {0}
unfolding dial_ips dial_upstream env
program = tt

abbrev unset : Env
unset key = []

abbrev here : Str
here = txt "10.0.0.95"

abbrev answering : Str → Str → Option Str
answering ip port = if str_beq ip (txt "192.0.2.2") then some ip else none

abbrev pretendo : Network
pretendo = record {
  Conn = Str;
  split_host_port = λ addr. some (addr, txt "443");
  lookup_host = λ dns host. some (here ∷ txt "192.0.2.1" ∷ txt "192.0.2.2" ∷ []);
  dial = answering;
}

dial_test :
    dial_upstream pretendo unset (txt "nasc")
    ≡ (inr (txt "192.0.2.2"), txt "192.0.2.1" ∷ txt "192.0.2.2" ∷ [])
unfolding program
dial_test = refl

abbrev addresses : List Str
addresses = here ∷ txt "192.0.2.1" ∷ txt "192.0.2.2" ∷ []

-- A name in FFE_PUBLIC_HOST is no address: the server dials itself first.
abbrev named : Env
named key = if str_beq key (txt "FFE_PUBLIC_HOST") then txt "your.server.example" else []

named_test : (dial_upstream pretendo named (txt "nasc")).1 ≡ addresses
unfolding program
named_test = refl

dial_upstream_lem_example :
    (IsConnected pretendo
        (txt "443")
        (others pretendo (env unset (txt "FFE_PUBLIC_HOST") (txt "10.0.0.95")) addresses)
        (dial_upstream pretendo unset (txt "nasc"))
      ⊎ IsRefused pretendo
          (txt "nasc")
          (txt "443")
          none
          (others pretendo (env unset (txt "FFE_PUBLIC_HOST") (txt "10.0.0.95")) addresses)
          (dial_upstream pretendo unset (txt "nasc")))
    × All
        (λ ip. ip ≢ env unset (txt "FFE_PUBLIC_HOST") (txt "10.0.0.95"))
        (dial_upstream pretendo unset (txt "nasc")).1
dial_upstream_lem_example =
    dial_upstream_lem pretendo unset (txt "nasc") (txt "nasc") (txt "443") addresses refl refl
