-- ===== src/Relay/Integration/Tests.antt =====
-- Session URLs and probes at concrete inputs: console 10 hosts a room, 11 and 12 have joined. A
-- station is its address and its port, written as a text; the ID of a connection is the PID.
use mathlib.Core.Path.{subst}
use fbf_3ds_servers.Base.{
  saturated, false, ℕ, ◌+◌, ◌≡◌, inr, List, refl, Option, none, some, [], ◌∷◌, map, Str, txt,
  str_eq, nat_beq, if◌then◌else◌, lookup, insert, format_uint, parse_digits, All, arith,
}
use fbf_3ds_servers.Relay.{
  RelayLink, RelayManager, Sockets, new_relay_manager, pair_key, new_link, endpoint_for, next_host,
  open_udp, open_second, open_link, link,
}
use fbf_3ds_servers.Relay.History.{Call, wanted, new_pool, calls}
use fbf_3ds_servers.Relay.Integration.{
  Connection, Library, gathering_host_for_pid, is_host_link, at_relay, session_url,
  session_urls_reply, relay_get_session_urls, connection_of, probe_packet, probe_station, probe,
  probe_all, relay_request_probe_initiation_ext,
}
use fbf_3ds_servers.Relay.Integration.Probes.{IsApart, IsDirect, IsUntouched, probes_direct}
use fbf_3ds_servers.Relay.Integration.Agreement.{
  packets_between, relayed, relayed_station, probes_agree,
}

program : Unit {0}
unfolding link open_link open_second open_udp next_host new_link pair_key new_relay_manager lookup
    insert format_uint endpoint_for saturated gathering_host_for_pid is_host_link at_relay
    session_url session_urls_reply relay_get_session_urls connection_of probe_packet probe_station
    probe probe_all relay_request_probe_initiation_ext parse_digits
program = tt

abbrev counting : Sockets
counting = record {
  Os = ℕ;
  listen_udp = λ ip os. (some os, os + 1);
  close = λ ip port os. os;
  parse_ip = some;
}

abbrev console : ℕ → Connection (Str × ℕ)
console pid = record {
  pid = pid;
  stations = (txt "192.0.2.1", pid) ∷ [];
  prudp_version = 1;
  stream_type = 10;
  stream_id = 15;
}

-- The text of a station is its port and its address.
abbrev parse : Str → Str × ℕ
parse [] = ([], 0)
parse (port ∷ address) = (address, port)

abbrev host_of : ℕ → Option Str
host_of pid = if nat_beq pid 99 then none else some (txt "10")

abbrev rooms : Library
rooms = record {
  Station = Str × ℕ;
  parse_station = parse;
  url = λ u. u.1 ∷ u.0;
  set_address = λ a u. (a, u.1);
  set_port_number = λ p u. (u.0, p);
  rv_connection_id = λ u. some u.1;
  Failure = ℕ;
  invalid_argument = 5;
  find_gathering = λ gid. inr 10;
  find_by_pid = λ pid. some (console pid);
  find_by_id = λ id. some (console id);
  host_text = host_of;
  write_urls = λ us. map (λ u. u.1) us;
  write_string = λ s. s;
  match_making = 21;
  get_session_urls = 9;
  nat_traversal = 3;
  request_probe_initiation_ext = 3;
  initiate_probe = 2;
  endpoint_stream_id = 1;
}

abbrev fresh : RelayManager
fresh = record { public_host = txt "10.0.0.95"; hosts = []; host_seq = 0; links = [] }

abbrev first : RelayLink
first = record { pid_a = 10; pid_b = 11; host = txt "10.0.0.95"; port_a = 50000; port_b = 50001 }

-- Console 11 is told to reach the host at port 50000 of the relay.
urls_test :
    (relay_get_session_urls counting rooms false 11 7 1 fresh 50000).0
    ≡ inr (record { protocol_id = 21; method_id = 9; call_id = 7; body = 50000 ∷ [] })
unfolding program
urls_test = refl

probe_test :
    map
      (λ p. p.payload.body)
      (relay_request_probe_initiation_ext counting rooms false 11 8
        ((10 ∷ []) ∷ (12 ∷ []) ∷ [])
        (77 ∷ txt "192.0.2.9")
        fresh
        50000).1
    ≡ (50000 ∷ txt "10.0.0.95") ∷ (77 ∷ txt "192.0.2.9") ∷ []
unfolding program
probe_test = refl

abbrev meanwhile : List Call
meanwhile = wanted 10 12 ∷ new_pool (txt "10.0.0.1" ∷ []) ∷ []

probes_agree_example :
    ((relay_get_session_urls counting rooms false 11 7 1 fresh 50000).0
      ≡ inr (
          session_urls_reply counting rooms 7
            (map (relayed counting rooms first 10) (console 10).stations)))
    × All
        (λ p.
          p.payload.body
          ≡ rooms.write_string (relayed_station counting rooms 11 (77 ∷ txt "192.0.2.9") first))
        (packets_between 10 11 11
          (relay_request_probe_initiation_ext counting rooms false 11 8
            ((10 ∷ []) ∷ (12 ∷ []) ∷ [])
            (77 ∷ txt "192.0.2.9")
            (calls counting meanwhile
              (relay_get_session_urls counting rooms false 11 7 1 fresh 50000).1
              50002).0
            50002).1)
unfolding program
probes_agree_example =
    probes_agree counting rooms rooms 10 11 1 7 fresh 50000 {l = first} (console 10) meanwhile 11 8
      ((10 ∷ []) ∷ (12 ∷ []) ∷ []) (77 ∷ txt "192.0.2.9") 50002 50002 refl (omega arith) refl refl
      refl

console_12-IsDirect : IsDirect rooms 11 10 ((12 ∷ []) ∷ [])
unfolding program
console_12-IsDirect = (
  (λ t e. let p : console 12 ≡ t = cc in subst (λ c. IsApart 10 11 c.pid) p (inr (omega arith))),
  tt,
)

probes_direct_example :
    (All
      (IsUntouched rooms 8 (77 ∷ txt "192.0.2.9"))
      (relay_request_probe_initiation_ext counting rooms false 11 8
        ((12 ∷ []) ∷ [])
        (77 ∷ txt "192.0.2.9")
        fresh
        50000).1)
    × ((relay_request_probe_initiation_ext counting rooms false 11 8
          ((12 ∷ []) ∷ [])
          (77 ∷ txt "192.0.2.9")
          fresh
          50000).2
        ≡ fresh)
    × ((relay_request_probe_initiation_ext counting rooms false 11 8
          ((12 ∷ []) ∷ [])
          (77 ∷ txt "192.0.2.9")
          fresh
          50000).3
        ≡ 50000)
unfolding program
probes_direct_example =
    probes_direct counting rooms 11 8 ((12 ∷ []) ∷ []) (77 ∷ txt "192.0.2.9") fresh 50000
      console_12-IsDirect
