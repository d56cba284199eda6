-- ===== src/Experiment/Tests.antt =====
-- A packet that is its two fields, and a cycle near the wrap of its counter.
use mathlib.Core.List.{Mem, Perm}
use fbf_3ds_servers.Base.{
  format_uint, ◌+◌, ◌≤◌, ◌≡◌, refl, true, none, some, [], ◌∷◌, ◌++◌, map, Str, txt, str_eq, str_beq,
  lookup, length, Env, if◌then◌else◌, arith,
}
use fbf_3ds_servers.Experiment.{
  response_line, ffe_combos, Experiment, ffe_next_combo, ffe_combo, ffe_sig_mode,
  ffe_conn_sig_field, Packets, Signatures, zeros, sig_inputs, fields, shot, shots, volleys,
  ffe_shotgun, with_field, send_ack, handle_connect,
}
use fbf_3ds_servers.Experiment.Cycle.{used, cycle_covers}
use fbf_3ds_servers.Experiment.Sent.{IsPacket, variant, ffe_shotgun-Perm, handle_connect_third}

program : Unit {0}
unfolding ffe_next_combo ffe_combo ffe_sig_mode ffe_conn_sig_field zeros sig_inputs fields shot
    shots volleys ffe_shotgun with_field send_ack handle_connect used lookup
program = tt

abbrev cycling : Env
cycling key = if str_beq key (txt "FFE_CYCLE") then txt "1" else []

-- The last count before the wrap.
abbrev last : Experiment
last = record { counter = 4294967295; current = none }

abbrev from_start : Experiment
from_start = record { counter = 0; current = none }

cycle_tests :
    (used cycling 2 last ≡ (txt "ours", txt "zeros") ∷ (txt "theirs", txt "zeros") ∷ [])
    × (used cycling 9 from_start ≡ ffe_combos)
    × (ffe_combo cycling from_start ≡ (txt "theirs", txt "zeros"))
    × (ffe_combo (λ k. k) from_start ≡ (txt "FFE_SIG_MODE", txt "FFE_CONNSIG_FIELD"))
unfolding program
cycle_tests = (refl, refl, refl, refl)

cycle_covers_example :
    Mem (txt "empty", txt "theirs") (used cycling 17 last)
    × (last.counter + 9 ≤ 4294967296 → Mem (txt "empty", txt "theirs") (used cycling 9 last))
cycle_covers_example = cycle_covers cycling refl last 8 (omega arith) refl

-- A packet is its connection signature and its signature, which is calculated as what is signed.
abbrev plain : Packets
plain = record {
  Packet = Str × Str;
  is_v1 = λ p. true;
  set_connection_signature = λ s p. (s, p.1);
  set_signature = λ s p. (p.0, s);
  calculate_signature = λ key input p. input ++ p.0;
  bytes = λ p. p.0 ++ p.1;
}

plain-IsPacket : IsPacket plain
plain-IsPacket = record {
  connection_signature_twice = λ s t p. refl;
  signature_twice = λ s t p. refl;
  set_comm = λ s t p. refl;
  calculate_unsigned = λ key input t p. refl;
}

abbrev sides : Signatures
sides = record { ours = 1 ∷ []; theirs = 2 ∷ [] }

abbrev blank : Str × Str
blank = ([], [])

sent_tests :
    (length (ffe_shotgun plain sides blank) ≡ 9)
    × ((handle_connect plain cycling some true sides 1 blank (λ e. e) from_start).0
        ≡ (0 ∷ 2 ∷ 0 ∷ []) ∷ [])
unfolding program
sent_tests = (refl, refl)

ffe_shotgun-Perm_example :
    Perm (ffe_shotgun plain sides blank) (map (variant plain sides blank) ffe_combos)
ffe_shotgun-Perm_example = ffe_shotgun-Perm plain plain-IsPacket sides blank

handle_connect_third_example :
    (handle_connect plain cycling some true sides 1 blank (λ e. e) from_start).0
    ≡ (handle_connect plain cycling some true sides 1 blank (λ e. record e { counter = 7 }) last).0
handle_connect_third_example =
    handle_connect_third plain cycling some true sides 1 blank (λ e. e)
      (λ e. record e { counter = 7 }) from_start last refl (λ x. refl) (λ x. refl) refl

response_tests :
    (response_line (λ s. txt "0a") (λ k. txt "1") true (10 ∷ [])
      ≡ some (txt ">>> RESPONSE PAYLOAD (1 bytes): 0a"))
    × (response_line (λ s. []) (λ k. txt "1") true [] ≡ none)
    × (response_line (λ s. []) cycling true (10 ∷ []) ≡ none)
unfolding response_line format_uint
response_tests = (refl, refl, refl)
