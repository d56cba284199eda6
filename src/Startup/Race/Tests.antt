-- ===== src/Startup/Race/Tests.antt =====
-- Two secure servers that start at the same time.
use fbf_3ds_servers.Base.{
  ℕ, ◌+◌, ◌⊎◌, ◌≡◌, refl, true, Option, none, some, List, [], ◌∷◌, txt, str_beq, false, Env, env,
  if◌then◌else◌, split, trim_space,
}
use fbf_3ds_servers.Relay.{Sockets, RelayManager, new_relay_manager, set_hosts}
use fbf_3ds_servers.Startup.{pool_of, start_relay}
use fbf_3ds_servers.Startup.Race.{
  Shared, assign_new, give_pool, access, pick, at_start, Turn, server_turn, console_link, link_at,
  all_turns,
}
use fbf_3ds_servers.Startup.Race.Settled.{
  current, is_within, is_listening, ServedLike, all_turns-ServedLike,
}

abbrev with_pool : Env
with_pool key =
    if str_beq key (txt "FFE_RELAY")
    then txt "1"
    else if str_beq key (txt "FFE_RELAY_IPS")
    then txt "10.0.0.1, 10.0.0.2"
    else []

-- Ports are given in turn.
abbrev counting : Sockets
counting = record {
  Os = ℕ;
  listen_udp = λ ip os. (some os, os + 1);
  close = λ ip port os. os;
  parse_ip = some;
}

-- Both find no manager, and each makes one: that of the second stays.
abbrev crossing : List Turn
crossing =
    server_turn 0
    ∷ server_turn 1
    ∷ server_turn 0
    ∷ server_turn 0
    ∷ server_turn 0
    ∷ console_link 0 10 11
    ∷ server_turn 1
    ∷ server_turn 1
    ∷ server_turn 1
    ∷ []

abbrev relay_of : Option (Shared × ℕ) → Option ℕ
relay_of none = none
relay_of (some (s, os)) = s.relay

abbrev manager_of : Option (Shared × ℕ) → Option RelayManager
manager_of none = none
manager_of (some (s, os)) = current s

-- A link that a console got of the first manager is not in the second.
crossing_tests :
    (relay_of (all_turns counting with_pool true crossing at_start 50000) ≡ some 1)
    × (manager_of (all_turns counting with_pool true crossing at_start 50000)
        ≡ some (record {
          public_host = txt "10.0.0.95";
          hosts = txt "10.0.0.1" ∷ txt "10.0.0.2" ∷ [];
          host_seq = 0;
          links = [];
        }))
unfolding all_turns link_at pick access give_pool assign_new set_hosts new_relay_manager pool_of
    split trim_space env
crossing_tests = (refl, refl)

all_turns-ServedLike_example :
    (s : Shared) × (os : ℕ) × (all_turns counting with_pool true crossing at_start 50000
      ≡ some (s, os))
    × (((i : ℕ) → is_listening (s.servers i) ≡ false)
        ⊎ (((j : ℕ) × (is_within (s.servers j) ≡ true))
            ⊎ ServedLike s (start_relay with_pool true none)))
all_turns-ServedLike_example = all_turns-ServedLike counting with_pool true crossing 50000
