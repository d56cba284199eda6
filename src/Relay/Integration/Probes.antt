-- ===== src/Relay/Integration/Probes.antt =====
-- Probes between two joiners pass untouched.
use fbf_3ds_servers.Base.{
  ℕ, ◌+◌, ◌%◌, ◌^◌, ◌≡◌, ◌≢◌, ◌⊎◌, arith, nat_beq, refl, inl, inr, false, ◌||◌, some, List, [], ◌∷◌,
  ◌++◌, Str, nat_beq, Bool-cases, Option-cases, All, All-append,
}
use fbf_3ds_servers.Relay.{RelayManager, Sockets}
use fbf_3ds_servers.Relay.Integration.{
  Connection, Library, Packet, is_host_link, gathering_host_for_pid, probe_packet, probe,
  connection_of, probe_all, relay_request_probe_initiation_ext,
}

pub All-probe_packet {κ} :
    (lib : Library) (P : Packet lib.Station → Type κ) (call_id : ℕ) (t : Connection lib.Station)
    (text : Str)
    → ((p : Packet lib.Station)
        → p.target ≡ t
        → p.payload.call_id ≡ (4294901760 + call_id) % 2 ^ 32
        → p.payload.body ≡ lib.write_string text
        → P p)
    → All P (probe_packet lib call_id t text)
unfolding probe_packet
All-probe_packet lib P call_id t text h =
    elim (Bool-cases (nat_beq t.prudp_version 0 || nat_beq t.prudp_version 1)) [
      | inl known ↦ rw known (h _ refl refl refl, tt)
      | inr other ↦ rw other tt
    ]

-- The caller has no gathering with a host, or neither the caller nor the console is the host.
abbrev pub IsApart : ℕ → ℕ → ℕ → Type 0
IsApart host caller pid = (host ≡ 0) ⊎ ((caller ≢ host) × (pid ≢ host))

IsApart-is_host_link :
    (host caller pid : ℕ) → IsApart host caller pid → is_host_link host caller pid ≡ false
unfolding is_host_link
IsApart-is_host_link host caller pid (inl none_there) = ground arith
IsApart-is_host_link host caller pid (inr (other, other')) = ground arith

-- No target that is connected makes a link with the host.
abbrev pub IsDirect : Library → ℕ → ℕ → List Str → Type 0
IsDirect lib caller host = All (λ target.
    (t : Connection lib.Station) → connection_of lib target ≡ some t → IsApart host caller t.pid)

-- A packet that carries the station as the caller sent it.
abbrev pub IsUntouched : (lib : Library) → ℕ → Str → Packet lib.Station → Type 0
IsUntouched lib call_id station p =
    (p.payload.call_id ≡ (4294901760 + call_id) % 2 ^ 32)
    × (p.payload.body ≡ lib.write_string station)

module _ (net : Sockets) (lib : Library) where
  open net use {Os}

  probe_direct :
      (caller host call_id : ℕ) (station : Str) (t : Connection lib.Station) (rm : RelayManager)
      (os : Os)
      → is_host_link host caller t.pid ≡ false
      → probe net lib caller host call_id station t rm os
        ≡ (probe_packet lib call_id t station, rm, os)
  unfolding probe
  probe_direct caller host call_id station t rm os h = rw h

  pub probe_all_found :
      (caller host call_id : ℕ) (station target : Str) (targets : List Str)
      (t : Connection lib.Station) (rm : RelayManager) (os : Os)
      → connection_of lib target ≡ some t
      → (r r' : List (Packet lib.Station) × RelayManager × Os) × (r
          ≡ probe net lib caller host call_id station t rm os)
        × (r' ≡ probe_all net lib caller host call_id station targets r.1 r.2)
        × (probe_all net lib caller host call_id station (target ∷ targets) rm os
            ≡ (r.0 ++ r'.0, r'.1, r'.2))
  unfolding probe_all
  probe_all_found caller host call_id station target targets t rm os h =
      (_, _, refl, refl, rw (h, probe_all))

  probe_all_direct :
      (caller host call_id : ℕ) (station : Str) (targets : List Str) (rm : RelayManager) (os : Os)
      → IsDirect lib caller host targets
      → (All
          (IsUntouched lib call_id station)
          (probe_all net lib caller host call_id station targets rm os).0)
        × ((probe_all net lib caller host call_id station targets rm os).1 ≡ rm)
        × ((probe_all net lib caller host call_id station targets rm os).2 ≡ os)
  unfolding probe_all
  probe_all_direct caller host call_id station [] rm os h = (tt, refl, refl)
  probe_all_direct caller host call_id station (target ∷ targets) rm os h =
      let rest = probe_all_direct caller host call_id station targets rm os h.1 in
      elim (Option-cases (connection_of lib target)) [
        | inl gone ↦ rw (gone, probe_all) rest
        | inr (t, e) ↦
            rw
              (
                e,
                probe_all,
                probe_direct caller host call_id station t rm os
                    (IsApart-is_host_link host caller t.pid (h.0 t e)),
              )
              (
                All-append (IsUntouched lib call_id station) _ _
                    (All-probe_packet lib (IsUntouched lib call_id station) call_id t station
                      (λ p _ a b. (a, b)))
                    rest.0,
                rest.1,
                rest.2,
              )
      ]

  -- Where the caller is in no gathering, or its host's PID is 0, or neither the caller nor any
  -- console that a target names is that host: a request for probes opens no link and changes
  -- nothing, and each packet that is sent carries the caller's own station, under the call ID plus
  -- 0xFFFF0000 modulo 2 ^ 32.
  pub probes_direct :
      (caller call_id : ℕ) (targets : List Str) (station : Str) (rm : RelayManager) (os : Os)
      → IsDirect lib caller (gathering_host_for_pid lib caller) targets
      → (All
          (IsUntouched lib call_id station)
          (relay_request_probe_initiation_ext net lib false caller call_id targets station rm os).1)
        × ((relay_request_probe_initiation_ext net lib false caller call_id targets station rm os).2
            ≡ rm)
        × ((relay_request_probe_initiation_ext net lib false caller call_id targets station rm os).3
            ≡ os)
  unfolding relay_request_probe_initiation_ext
  probes_direct caller call_id targets station rm os h =
      probe_all_direct caller (gathering_host_for_pid lib caller) call_id station targets rm os h
