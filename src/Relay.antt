-- ===== src/Relay.antt =====
-- server/relay.go: the transparent UDP relay. The manager hands out one link for each pair of
-- consoles; each link has a socket for each side and two pumps that forward between them.
-- The sockets belong to the operating system: opening and closing them are parameters.
pub mod Keys
pub mod Links
pub mod Hosts
pub mod Pump
pub mod Pairs
pub mod History
pub mod Owned
pub mod Collision
pub mod Integration
mod Tests
use fbf_3ds_servers.Base.{
  ℕ, ◌+◌, ◌%◌, Bool, Option, none, some, List, [], ◌∷◌, ◌++◌, if◌then◌else◌, Str, txt, str_beq,
  str_eq, nat_beq, ltb, lookup, insert, get_elem?, length, format_uint,
}

-- The addresses `addrA` and `addrB` that the pumps learn stand in Relay/Pump.antt.
pub record RelayLink : Type 0 where
  pub pid_a : ℕ
  pub pid_b : ℕ
  pub host : Str
  pub port_a : ℕ
  pub port_b : ℕ

pub record RelayManager : Type 0 where
  pub public_host : Str
  pub hosts : List Str
  pub host_seq : ℕ
  pub links : List (Str × RelayLink)

-- newRelayManager
unfoldable pub new_relay_manager : Str → RelayManager
new_relay_manager public_host = record {
  public_host = public_host;
  hosts = [];
  host_seq = 0;
  links = [];
}

-- setHosts
unfoldable pub set_hosts : List Str → RelayManager → RelayManager
set_hosts hosts rm = record rm { hosts = hosts }

-- pairKey: the smaller number first.
pub pair_key : ℕ → ℕ → Str
pair_key a b =
    if ltb b a
    then format_uint b ++ (b'-' ∷ format_uint a)
    else format_uint a ++ (b'-' ∷ format_uint b)

-- endpointFor: the conversion to uint16 keeps the low 16 bits.
pub endpoint_for : RelayLink → ℕ → ℕ
endpoint_for l target = if nat_beq target l.pid_a then l.port_a % 65536 else l.port_b % 65536

-- The link of `link`: without a pool it presents the public host.
pub new_link : ℕ → ℕ → Str → ℕ → ℕ → Str → RelayLink
new_link a b host pa pb public_host = record {
  pid_a = a;
  pid_b = b;
  host = if str_beq host [] then public_host else host;
  port_a = pa;
  port_b = pb;
}

-- What the relay asks of the operating system and of package net.
pub record Sockets : Type 1 where
  pub Os : Type 0
  -- net.ListenUDP on an address with port 0: the port that was bound, or an error.
  pub listen_udp : Str → Os → Option ℕ × Os
  -- Close on a socket: the bound address and port.
  pub close : Str → ℕ → Os → Os
  -- net.ParseIP, as the text of the address.
  pub parse_ip : Str → Option Str

module _ (net : Sockets) where
  open net use {Os, listen_udp, close, parse_ip}

  -- The local address that openUDP binds.
  pub bind_ip : Str → Str
  bind_ip ip =
      if str_beq ip []
      then txt "0.0.0.0"
      else elim (parse_ip ip) [ none ↦ txt "0.0.0.0" | some p ↦ p ]

  -- openUDP
  pub open_udp : Str → Os → Option ℕ × Os
  unfolding bind_ip
  open_udp ip os = listen_udp (bind_ip ip) os

  -- The host of a new link, and the manager with its cursor moved.
  pub next_host : RelayManager → Str × RelayManager
  next_host rm = if nat_beq (length rm.hosts) 0 then ([], rm) else (
    elim (get_elem? rm.hosts (rm.host_seq % length rm.hosts)) [ none ↦ [] | some h ↦ h ],
    record rm { host_seq = rm.host_seq + 1 },
  )

  -- The part of link behind the first socket, which is bound to port `pa`: a second socket that
  -- cannot be opened closes the first.
  pub open_second : ℕ → ℕ → Str → ℕ → RelayManager → Os → Option RelayLink × RelayManager × Os
  unfolding open_udp bind_ip
  open_second a b host pa rm os = elim (open_udp host os).0 [
    | none ↦ (none, rm, close (bind_ip host) pa (open_udp host os).1)
    | some pb ↦ (
      some (new_link a b host pa pb rm.public_host),
      record rm { links = insert (pair_key a b) (new_link a b host pa pb rm.public_host) rm.links },
      (open_udp host os).1,
    )
  ]

  -- The part of link below the search of the map: `host` is the pool's address, or empty.
  pub open_link : ℕ → ℕ → Str → RelayManager → Os → Option RelayLink × RelayManager × Os
  unfolding open_second
  open_link a b host rm os = elim (open_udp host os).0 [
    | none ↦ (none, rm, (open_udp host os).1)
    | some pa ↦ open_second a b host pa rm (open_udp host os).1
  ]

  -- link: `none` is the error.
  pub link : ℕ → ℕ → RelayManager → Os → Option RelayLink × RelayManager × Os
  unfolding next_host open_link
  link a b rm os = elim (lookup (pair_key a b) rm.links) [
    | some l ↦ (some l, rm, os)
    | none ↦ open_link a b (next_host rm).0 (next_host rm).1 os
  ]
