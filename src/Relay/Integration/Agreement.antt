-- ===== src/Relay/Integration/Agreement.antt =====
-- A joiner and its host are given one link: what GetSessionURLs tells the joiner and what the probes
-- tell either of them belong together.
use mathlib.Core.Path.{subst}
use mathlib.Core.Bool.{false≢true}
use fbf_3ds_servers.Base.{
  ℕ, ◌≡◌, ◌≢◌, sym, ap, ◌∙◌, ◌⊎◌, inl, inr, Bool, ◌&&◌, ◌||◌, true, false, some, List, [], ◌∷◌, map,
  Str, str_beq, str_beq_iff, str_eq, lookup, if◌then◌else◌, Bool-cases, Option-cases, All,
  All-append, nat_beq, arith,
}
use fbf_3ds_servers.Relay.{RelayLink, RelayManager, Sockets, pair_key, endpoint_for, link}
use fbf_3ds_servers.Relay.Keys.{pair_key_iff}
use fbf_3ds_servers.Relay.Links.{link_found, link_stored, link_keeps}
use fbf_3ds_servers.Relay.History.{Call, calls, calls-unmoved}
use fbf_3ds_servers.Relay.Integration.{
  Connection, Library, Packet, is_host_link, gathering_host_for_pid, at_relay, session_url,
  session_urls_reply, relay_get_session_urls, probe_station, probe_packet, probe, connection_of,
  probe_all, relay_request_probe_initiation_ext,
}
use fbf_3ds_servers.Relay.Integration.Probes.{All-probe_packet}

-- The caller and the target are the host and the joiner, in either order.
abbrev IsBetween : ℕ → ℕ → ℕ → ℕ → Type 0
IsBetween host joiner caller target =
    ((caller ≡ host) × (target ≡ joiner)) ⊎ ((caller ≡ joiner) × (target ≡ host))

-- The same as a test, and the packets that pass it.
abbrev pub is_between : ℕ → ℕ → ℕ → ℕ → Bool
is_between host joiner caller target =
    (nat_beq caller host && nat_beq target joiner) || (nat_beq caller joiner && nat_beq target host)

abbrev pub packets_between : {S : Type 0} → ℕ → ℕ → ℕ → List (Packet S) → List (Packet S)
packets_between host joiner caller [] = []
packets_between host joiner caller (p ∷ ps) =
    let rest = packets_between host joiner caller ps in
    if is_between host joiner caller p.target.pid then p ∷ rest else rest

is_host_link_between :
    (host joiner caller target : ℕ)
    → host ≢ 0
    → IsBetween host joiner caller target
    → is_host_link host caller target ≡ true
unfolding is_host_link
is_host_link_between host joiner caller target h b = ground arith

module _ (net : Sockets) (lib : Library) where
  open net use {Os}

  -- A link that is in the map stays there.
  link_stays :
      (a b c d : ℕ) (rm : RelayManager) (os : Os) {l : RelayLink}
      → lookup (pair_key c d) rm.links ≡ some l
      → lookup (pair_key c d) (link net a b rm os).1.links ≡ some l
  link_stays a b c d rm os {l} h = elim (Bool-cases (str_beq (pair_key a b) (pair_key c d))) [
    | inl same ↦
        let e = (str_beq_iff (pair_key a b) (pair_key c d)).0 same in
        rw (link_found net a b rm os (rw (sym e) at h)) h
    | inr other ↦
        link_keeps net a b c d rm os
          (λ e. ground (arith, str_beq_iff (pair_key a b) (pair_key c d)))
        ∙ h
  ]

  -- A station with the address of the link and its port for reaching a console.
  abbrev pub relayed : RelayLink → ℕ → lib.Station → lib.Station
  relayed l pid u = lib.set_port_number (endpoint_for l pid) (lib.set_address l.host u)

  -- The text of a caller's probe over the link `l`.
  abbrev pub relayed_station : ℕ → Str → RelayLink → Str
  relayed_station caller station l = lib.url (relayed l caller (lib.parse_station station))

  module _ (caller host joiner call_id : ℕ) (station : Str) (l : RelayLink) where
    -- A packet between the two carries the link's address, with the port that leads to the caller.
    abbrev IsRelayed : Packet lib.Station → Type 0
    IsRelayed p =
        IsBetween host joiner caller p.target.pid
        → p.payload.body ≡ lib.write_string (relayed_station caller station l)

    -- A station that is right for a target: the link's, if it is a target between the two.
    abbrev IsRight : ℕ → Str → Type 0
    IsRight target text =
        IsBetween host joiner caller target → text ≡ relayed_station caller station l

    probe_packet-IsRelayed :
        (t : Connection lib.Station) (text : Str)
        → IsRight t.pid text
        → All IsRelayed (probe_packet lib call_id t text)
    probe_packet-IsRelayed t text right =
        All-probe_packet lib IsRelayed call_id t text (λ p target _ e between.
          e
          ∙ ap lib.write_string
              (right (subst (λ c. IsBetween host joiner caller c.pid) target between)))

    probe_station-IsRight :
        (target : ℕ) (rm : RelayManager) (os : Os)
        → lookup (pair_key host joiner) rm.links ≡ some l
        → IsRight target
            (probe_station net lib caller host call_id station (link net caller target rm os).0)
    unfolding probe_station at_relay
    probe_station-IsRight target rm os h = λ between.
        let same = (pair_key_iff caller target host joiner).1 between in
        let found = link_found net caller target rm os (rw same h) in
        ap (λ r. probe_station net lib caller host call_id station r.0) found

    All-packets_between :
        (ps : List (Packet lib.Station))
        → All IsRelayed ps
        → All
            (λ p. p.payload.body ≡ lib.write_string (relayed_station caller station l))
            (packets_between host joiner caller ps)
    All-packets_between [] h = tt
    All-packets_between (p ∷ ps) h =
        elim (Bool-cases (is_between host joiner caller p.target.pid)) [
          | inl here ↦
              let between : IsBetween host joiner caller p.target.pid = ground arith in
              rw here (h.0 between, All-packets_between ps h.1)
          | inr other ↦ rw other (All-packets_between ps h.1)
        ]

    abbrev Relays : List (Packet lib.Station) × RelayManager × Os → Type 0
    Relays r = All IsRelayed r.0 × (lookup (pair_key host joiner) r.1.links ≡ some l)

    probe-Relays :
        (t : Connection lib.Station) (rm : RelayManager) (os : Os)
        → host ≢ 0
        → lookup (pair_key host joiner) rm.links ≡ some l
        → Relays (probe net lib caller host call_id station t rm os)
    unfolding probe
    probe-Relays t rm os real h = elim (Bool-cases (is_host_link host caller t.pid)) [
      | inl linked ↦ rw linked (
        probe_packet-IsRelayed t _ (probe_station-IsRight t.pid rm os h),
        link_stays caller t.pid host joiner rm os h,
      )
      | inr direct ↦ rw direct (
        probe_packet-IsRelayed t station (λ between.
            absurd (
              false≢true
                (sym direct ∙ is_host_link_between host joiner caller t.pid real between))),
        h,
      )
    ]

    probe_all-Relays :
        (targets : List Str) (rm : RelayManager) (os : Os)
        → host ≢ 0
        → lookup (pair_key host joiner) rm.links ≡ some l
        → Relays (probe_all net lib caller host call_id station targets rm os)
    unfolding probe_all
    probe_all-Relays [] rm os real h = (tt, h)
    probe_all-Relays (target ∷ targets) rm os real h =
        elim (Option-cases (connection_of lib target)) [
          | inl gone ↦ rw (gone, probe_all) (probe_all-Relays targets rm os real h)
          | inr (t, e) ↦
              let first = probe-Relays t rm os real h in
              let next = probe net lib caller host call_id station t rm os in
              let rest = probe_all-Relays targets next.1 next.2 real first.1 in
              rw (e, probe_all) (All-append IsRelayed _ _ first.0 rest.0, rest.1)
        ]

module _ (net : Sockets) (lib lib' : Library) where
  open net use {Os}

  -- The joiner asks for the session URLs of its gathering, the host's PID is not 0, the host is
  -- connected and the link with it can be opened. After any calls of link for other consoles or
  -- these, and any changes of the pool, with connections and a database that may have changed, a
  -- caller whose gathering has this host asks for probes. Then the joiner was given the host's URLs
  -- with the link's address and its port for the host, and each packet that is sent between the
  -- joiner and the host, from whichever of them calls, carries the caller's station with the same
  -- link's address and its port for the caller.
  pub probes_agree :
      (host joiner gid call_id : ℕ) (rm : RelayManager) (os : Os) {l : RelayLink}
      (console : Connection lib.Station) (between : List Call) (caller call_id' : ℕ)
      (targets : List Str) (station : Str) (os' os'' : Os)
      → lib.find_gathering gid ≡ inr host
      → host ≢ 0
      → lib.find_by_pid host ≡ some console
      → (link net host joiner rm os).0 ≡ some l
      → gathering_host_for_pid lib' caller ≡ host
      → ((relay_get_session_urls net lib false joiner call_id gid rm os).0
          ≡ inr
              (session_urls_reply net lib call_id (map (relayed net lib l host) console.stations)))
        × All
            (λ p. p.payload.body ≡ lib'.write_string (relayed_station net lib' caller station l))
            (packets_between host joiner caller
              (relay_request_probe_initiation_ext net lib' false caller call_id' targets station
                (calls net between
                  (relay_get_session_urls net lib false joiner call_id gid rm os).1
                  os').0
                os'').1)
  unfolding relay_get_session_urls relay_request_probe_initiation_ext session_url at_relay
  probes_agree host joiner gid call_id rm os {l} console between caller call_id' targets station os'
        os'' gathering real connected h whose =
      let kept =
        calls-unmoved net between host joiner (link net host joiner rm os).1 os'
          (link_stored net host joiner rm os h) in
      (
        rw (gathering, connected, relay_get_session_urls, h),
        rw (gathering, connected, relay_get_session_urls, whose)
            (All-packets_between net lib' caller host joiner call_id' station l _
              (probe_all-Relays net lib' caller host joiner call_id' station l targets
                (calls net between (link net host joiner rm os).1 os').0 os'' real kept).0),
      )
