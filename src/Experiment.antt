-- ===== src/Experiment.antt =====
-- What the repository adds to its copy of nex-go: server/vendor-nex/ffe_experiment.go and
-- ffe_shotgun.go, the two places of handleConnect in prudp_endpoint.go that call them, and the hook
-- at the head of Send in prudp_server.go. Packets belong to the library.
pub mod Cycle
pub mod Sent
mod Tests
use fbf_3ds_servers.Base.{
  ℕ, zero, suc, ◌+◌, ◌%◌, Bool, ◌&&◌, not, Option, none, some, List, [], ◌∷◌, ◌++◌, Str, txt,
  str_beq, str_eq, length, get_elem?, lookup, Env, not, nat_beq, format_uint, if◌then◌else◌,
}

-- A combination: which signature, and what stands in the field for it.
abbrev pub Combo : Type 0
Combo = Str × Str

-- ffeCombos
abbrev pub ffe_combos : List Combo
ffe_combos =
    (txt "theirs", txt "zeros")
    ∷ (txt "theirs", txt "ours")
    ∷ (txt "theirs", txt "theirs")
    ∷ (txt "ours", txt "zeros")
    ∷ (txt "ours", txt "ours")
    ∷ (txt "ours", txt "theirs")
    ∷ (txt "empty", txt "zeros")
    ∷ (txt "empty", txt "ours")
    ∷ (txt "empty", txt "theirs")
    ∷ []

-- ffeCounter, a number of 32 bits, and ffeCurrent.
pub record Experiment : Type 0 where
  pub counter : ℕ
  pub current : Option Combo

abbrev pub cycles : Env → Bool
cycles getenv = str_beq (getenv (txt "FFE_CYCLE")) (txt "1")

-- ffeNextCombo
unfoldable pub ffe_next_combo : Env → Experiment → Experiment
ffe_next_combo getenv e =
    if cycles getenv
    then record {
      counter = (e.counter + 1) % 4294967296;
      current = get_elem? ffe_combos (e.counter % length ffe_combos);
    }
    else e

abbrev pub or_first : Option Combo → Combo
or_first none = (txt "theirs", txt "zeros")
or_first (some c) = c

-- ffeCombo
unfoldable pub ffe_combo : Env → Experiment → Combo
ffe_combo getenv e =
    if cycles getenv
    then or_first e.current
    else (getenv (txt "FFE_SIG_MODE"), getenv (txt "FFE_CONNSIG_FIELD"))

-- ffeSigMode, which nothing calls.
unfoldable pub ffe_sig_mode : Env → Experiment → Str
unfolding ffe_combo
ffe_sig_mode getenv e = (ffe_combo getenv e).0

-- ffeConnSigField
unfoldable pub ffe_conn_sig_field : Env → Experiment → Str
unfolding ffe_combo
ffe_conn_sig_field getenv e = (ffe_combo getenv e).1

-- The hook at the head of Send: the line that is printed of a response, `%x` being `hex`.
unfoldable pub response_line : (Str → Str) → Env → Bool → Str → Option Str
response_line hex getenv is_data payload =
    if str_beq (getenv (txt "FFE_LOG_RESPONSE")) (txt "1")
      && (not (nat_beq (length payload) 0) && is_data)
    then some (
        txt ">>> RESPONSE PAYLOAD ("
        ++ format_uint (length payload)
        ++ txt " bytes): "
        ++ hex payload)
    else none

-- The packets of nex-go.
pub record Packets : Type 1 where
  pub Packet : Type 0
  pub is_v1 : Packet → Bool
  pub set_connection_signature : Str → Packet → Packet
  pub set_signature : Str → Packet → Packet
  -- CalculateSignature: the session key, and the connection signature.
  pub calculate_signature : Str → Str → Packet → Str
  pub bytes : Packet → Str

-- make([]byte, n)
unfoldable pub zeros : ℕ → Str
zeros zero = []
zeros (suc n) = 0 ∷ zeros n

-- The signatures of the two sides, as handleConnect has them.
pub record Signatures : Type 0 where
  pub ours : Str
  pub theirs : Str

-- A missing key of a Go map to byte slices.
abbrev or_nil : Option Str → Str
or_nil none = []
or_nil (some s) = s

unfoldable pub sig_inputs : Signatures → Str → Str
unfolding lookup
sig_inputs s name =
    or_nil (lookup name ((txt "theirs", s.theirs) ∷ (txt "ours", s.ours) ∷ (txt "empty", []) ∷ []))

unfoldable pub fields : Signatures → Str → Str
unfolding lookup zeros
fields s name =
    or_nil
      (lookup name ((txt "zeros", zeros 16) ∷ (txt "ours", s.ours) ∷ (txt "theirs", s.theirs) ∷ []))

module _ (packets : Packets) where
  open packets use {
    Packet, is_v1, set_connection_signature, set_signature, calculate_signature, bytes,
  }

  -- ack.SetSignature(ack.CalculateSignature([]byte{}, input))
  abbrev pub sign : Str → Packet → Packet
  sign input p = set_signature (calculate_signature [] input p) p

  -- The body of the inner loop of ffeShotgun: the packet afterwards is the one that is sent.
  unfoldable pub shot : Signatures → Str → Str → Packet → Packet
  unfolding sig_inputs fields
  shot s field sig ack = sign (sig_inputs s sig) (set_connection_signature (fields s field) ack)

  -- The inner loop: what is sent, and the packet.
  unfoldable pub shots : Signatures → Str → List Str → Packet → List Str × Packet
  unfolding shot
  shots s field [] ack = ([], ack)
  shots s field (sig ∷ sigs) ack =
      let (sent, ack') = shots s field sigs (shot s field sig ack) in
      (bytes (shot s field sig ack) ∷ sent, ack')

  -- The outer loop.
  unfoldable pub volleys : Signatures → List Str → Packet → List Str × Packet
  unfolding shots
  volleys s [] ack = ([], ack)
  volleys s (field ∷ rest) ack =
      let (sent, ack') = shots s field (txt "theirs" ∷ txt "ours" ∷ txt "empty" ∷ []) ack in
      let (more, ack'') = volleys s rest ack' in (sent ++ more, ack'')

  -- ffeShotgun: what is sent.
  unfoldable pub ffe_shotgun : Signatures → Packet → List Str
  unfolding volleys
  ffe_shotgun s ack = (volleys s (txt "zeros" ∷ txt "ours" ∷ txt "theirs" ∷ []) ack).0

  -- The switch of handleConnect; `size` is the length of the calculated connection signature.
  unfoldable pub with_field : Env → Experiment → Signatures → ℕ → Packet → Packet
  unfolding ffe_conn_sig_field zeros
  with_field getenv e s size ack =
      let mode = ffe_conn_sig_field getenv e in
      if str_beq mode (txt "ours")
      then set_connection_signature s.ours ack
      else if str_beq mode (txt "theirs")
      then set_connection_signature s.theirs ack
      else set_connection_signature (zeros size) ack

  -- The end of handleConnect.
  unfoldable pub send_ack : Env → Signatures → Packet → List Str
  unfolding ffe_shotgun
  send_ack getenv s ack =
      if str_beq (getenv (txt "FFE_SHOTGUN")) (txt "1") && is_v1 ack
      then ffe_shotgun s ack
      else bytes (sign s.theirs ack) ∷ []

  abbrev pub sent_after : Env → Signatures → Option Packet → List Str
  sent_after getenv s none = []
  sent_after getenv s (some ack) = send_ack getenv s ack

  -- handleConnect with what it sends: `ack` is the packet before the switch, and `finish` the part of
  -- the library between the switch and the end, none where it returns early. A connection that is
  -- not yet connecting gets no answer. ffeNextCombo and the switch are two accesses of what all
  -- connections share: `meanwhile` is what the CONNECTs of other connections do to it in between.
  unfoldable pub handle_connect :
      Env
      → (Packet → Option Packet)
      → Bool
      → Signatures
      → ℕ
      → Packet
      → (Experiment → Experiment)
      → Experiment
      → List Str × Experiment
  unfolding ffe_next_combo with_field send_ack
  handle_connect getenv finish connecting s size ack meanwhile e =
      let e' = meanwhile (ffe_next_combo getenv e) in
      (
        if connecting then sent_after getenv s (finish (with_field getenv e' s size ack)) else [],
        e',
      )
