-- ===== src/Relay/Integration.antt =====
-- server/relay_integration.go: the two handlers that hand out addresses of peers, with the relay on.
-- Station URLs, connections, the database and the encoders belong to libraries: parameters.
pub mod Probes
pub mod Agreement
mod Tests
use fbf_3ds_servers.Base.{
  saturated, ℕ, ◌+◌, ◌%◌, ◌^◌, Bool, true, false, not, ◌||◌, ◌&&◌, Option, none, some, ◌⊎◌, inl,
  inr, List, [], ◌∷◌, ◌++◌, map, Str, txt, nat_beq, if◌then◌else◌, parse_digits, ltb,
}
use fbf_3ds_servers.Relay.{RelayLink, RelayManager, Sockets, endpoint_for, link}

-- A connection of the endpoint, as the handlers read it.
pub record Connection (Station : Type 0) : Type 0 where
  pub pid : ℕ
  pub stations : List Station
  pub prudp_version : ℕ
  pub stream_type : ℕ
  pub stream_id : ℕ

-- What the handlers use of the NEX libraries and of the matchmaking database.
pub record Library : Type 1 where
  pub Station : Type 0
  pub parse_station : Str → Station
  pub url : Station → Str
  pub set_address : Str → Station → Station
  pub set_port_number : ℕ → Station → Station
  pub rv_connection_id : Station → Option ℕ
  pub Failure : Type 0
  pub invalid_argument : Failure
  -- FindGatheringByID: the PID of the host.
  pub find_gathering : ℕ → Failure ⊎ ℕ
  pub find_by_pid : ℕ → Option (Connection Station)
  pub find_by_id : ℕ → Option (Connection Station)
  -- The row of gatheringHostForPID: none without a database, a row, or on an error.
  pub host_text : ℕ → Option Str
  pub write_urls : List Station → Str
  pub write_string : Str → Str
  pub match_making : ℕ
  pub get_session_urls : ℕ
  pub nat_traversal : ℕ
  pub request_probe_initiation_ext : ℕ
  pub initiate_probe : ℕ
  pub endpoint_stream_id : ℕ

pub record Message : Type 0 where
  pub protocol_id : ℕ
  pub method_id : ℕ
  pub call_id : ℕ
  pub body : Str

-- A reliable data packet that asks for an acknowledgement, to one connection.
pub record Packet (Station : Type 0) : Type 0 where
  pub version : ℕ
  pub target : Connection Station
  pub source_type : ℕ
  pub source_id : ℕ
  pub destination_type : ℕ
  pub destination_id : ℕ
  pub payload : Message

-- gatheringHostForPID: 0 for none.
unfoldable pub gathering_host_for_pid : Library → ℕ → ℕ
unfolding saturated
gathering_host_for_pid lib pid = elim (lib.host_text pid) [ none ↦ 0 | some text ↦ saturated text ]

-- `hostPID != 0 && (callerPID == hostPID || targetPID == hostPID)`
unfoldable pub is_host_link : ℕ → ℕ → ℕ → Bool
is_host_link host caller target =
    not (nat_beq host 0) && (nat_beq caller host || nat_beq target host)

-- The connection that a target's URL names.
unfoldable pub connection_of : (lib : Library) → Str → Option (Connection lib.Station)
connection_of lib target = elim (lib.rv_connection_id (lib.parse_station target)) [
  | none ↦ none
  | some id ↦ lib.find_by_id id
]

-- The packet to one target; none is a version of PRUDP that is passed over.
unfoldable pub probe_packet :
    (lib : Library) → ℕ → Connection lib.Station → Str → List (Packet lib.Station)
probe_packet lib call_id t text =
    if nat_beq t.prudp_version 0 || nat_beq t.prudp_version 1
    then record {
      version = t.prudp_version;
      target = t;
      source_type = t.stream_type;
      source_id = lib.endpoint_stream_id;
      destination_type = t.stream_type;
      destination_id = t.stream_id;
      payload = record {
        protocol_id = lib.nat_traversal;
        method_id = lib.initiate_probe;
        call_id = (4294901760 + call_id) % 2 ^ 32;
        body = lib.write_string text;
      };
    }
      ∷ []
    else []

module _ (net : Sockets) (lib : Library) where
  open net use {Os}
  open lib use {
    Station, parse_station, url, set_address, set_port_number, rv_connection_id, Failure,
    invalid_argument, find_gathering, find_by_pid, find_by_id, write_urls, write_string,
  }

  -- A station with the address of the link, and its port for reaching `pid`.
  unfoldable pub at_relay : RelayLink → ℕ → Station → Station
  at_relay l pid u = set_port_number (endpoint_for l pid) (set_address l.host u)

  -- One URL of the host: unchanged if the link could not be opened.
  unfoldable pub session_url : Option RelayLink → ℕ → Station → Station
  unfolding at_relay
  session_url none host u = u
  session_url (some l) host u = at_relay l host u

  unfoldable pub session_urls_reply : ℕ → List Station → Message
  session_urls_reply call_id urls = record {
    protocol_id = lib.match_making;
    method_id = lib.get_session_urls;
    call_id = call_id;
    body = write_urls urls;
  }

  -- relayGetSessionURLs: `failed` says that the request could not be parsed.
  unfoldable pub relay_get_session_urls :
      Bool → ℕ → ℕ → ℕ → RelayManager → Os → (Failure ⊎ Message) × RelayManager × Os
  unfolding session_url session_urls_reply
  relay_get_session_urls failed caller call_id gid rm os =
      if failed then (inl invalid_argument, rm, os) else elim (find_gathering gid) [
        | inl failure ↦ (inl failure, rm, os)
        | inr host_pid ↦ elim (find_by_pid host_pid) [
          | none ↦ (inr (session_urls_reply call_id []), rm, os)
          | some host ↦ (
            inr (
                session_urls_reply call_id
                  (map (session_url (link net host_pid caller rm os).0 host_pid) host.stations)),
            (link net host_pid caller rm os).1,
            (link net host_pid caller rm os).2,
          )
        ]
      ]

  module _ (caller host call_id : ℕ) (station : Str) where
    -- The station of a probe over a link that was asked for.
    unfoldable pub probe_station : Option RelayLink → Str
    unfolding at_relay
    probe_station none = station
    probe_station (some l) = url (at_relay l caller (parse_station station))

    -- One round of the loop, for a target that is connected.
    unfoldable pub probe :
        Connection Station → RelayManager → Os → List (Packet Station) × RelayManager × Os
    unfolding probe_station probe_packet is_host_link
    probe t rm os =
        if is_host_link host caller t.pid
        then (
          probe_packet lib call_id t (probe_station (link net caller t.pid rm os).0),
          (link net caller t.pid rm os).1,
          (link net caller t.pid rm os).2,
        )
        else (probe_packet lib call_id t station, rm, os)

    -- The loop over the targets.
    unfoldable pub probe_all :
        List Str → RelayManager → Os → List (Packet Station) × RelayManager × Os
    unfolding connection_of probe
    probe_all [] rm os = ([], rm, os)
    probe_all (target ∷ targets) rm os = elim (connection_of lib target) [
      | none ↦ probe_all targets rm os
      | some t ↦
          let (sent, rm', os') = probe t rm os in
          let (rest, rm'', os'') = probe_all targets rm' os' in (sent ++ rest, rm'', os'')
    ]

  -- relayRequestProbeInitiationExt: the answer, the packets that are sent and the manager.
  unfoldable pub relay_request_probe_initiation_ext :
      Bool
      → ℕ
      → ℕ
      → List Str
      → Str
      → RelayManager
      → Os
      → (Failure ⊎ Message) × List (Packet Station) × RelayManager × Os
  unfolding probe_all gathering_host_for_pid
  relay_request_probe_initiation_ext failed caller call_id targets station rm os =
      if failed
      then (inl invalid_argument, [], rm, os)
      else let (sent, rm', os') =
          probe_all caller (gathering_host_for_pid lib caller) call_id station targets rm os in
        (
          inr (record {
            protocol_id = lib.nat_traversal;
            method_id = lib.request_probe_initiation_ext;
            call_id = call_id;
            body = [];
          }),
          sent,
          rm',
          os',
        )
