-- ===== src/Experiment/Sent.antt =====
-- What handleConnect sends: with the cycle, and with all combinations at once.
use mathlib.Core.Path.{subst}
use mathlib.Core.List.{Perm, perm_middle}
use mathlib.Core.List.Perm
use fbf_3ds_servers.Base.{
  ℕ, zero, suc, ◌%◌, ◌<◌, ◌≡◌, refl, sym, ap, ◌∙◌, Bool, true, Option, List, [], ◌∷◌, ◌++◌, map,
  Str, txt, str_beq, str_eq, Env, if◌then◌else◌, arith,
}
use fbf_3ds_servers.Experiment.Cycle.{combo_at, next_combo}
use fbf_3ds_servers.Experiment.{
  or_first, Combo, ffe_combos, Experiment, cycles, ffe_next_combo, ffe_combo, ffe_conn_sig_field,
  Packets, Signatures, zeros, sig_inputs, fields, sign, shot, shots, volleys, ffe_shotgun,
  with_field, sent_after, handle_connect,
}

-- The fields of the nine combinations come in turns of three.
field_of_combo : (i : ℕ) → i < 9 → (combo_at i).1 ≡ (combo_at (i % 3)).1
field_of_combo zero h = refl
field_of_combo (suc zero) h = refl
field_of_combo (suc (suc zero)) h = refl
field_of_combo (suc (suc (suc zero))) h = refl
field_of_combo (suc (suc (suc (suc zero)))) h = refl
field_of_combo (suc (suc (suc (suc (suc zero))))) h = refl
field_of_combo (suc (suc (suc (suc (suc (suc zero)))))) h = refl
field_of_combo (suc (suc (suc (suc (suc (suc (suc zero))))))) h = refl
field_of_combo (suc (suc (suc (suc (suc (suc (suc (suc zero)))))))) h = refl
field_of_combo (suc (suc (suc (suc (suc (suc (suc (suc (suc n))))))))) h = absurd (omega arith)

field_of_mode :
    (getenv : Env) (e : Experiment) → ffe_conn_sig_field getenv e ≡ (ffe_combo getenv e).1
unfolding ffe_conn_sig_field
field_of_mode getenv e = refl

field_next :
    (getenv : Env) (e : Experiment)
    → cycles getenv ≡ true
    → ffe_conn_sig_field getenv (ffe_next_combo getenv e) ≡ (combo_at (e.counter % 3)).1
field_next getenv e on =
    let twice : e.counter % 9 % 3 ≡ e.counter % 3 = omega arith in
    field_of_mode getenv (ffe_next_combo getenv e)
    ∙ ap (λ c. c.1) (next_combo getenv on e)
    ∙ field_of_combo (e.counter % 9) (omega arith)
    ∙ ap (λ i. (combo_at i).1) twice

-- Nine values in two orders.
rows_columns {ℓ} :
    {A : Type ℓ} (a b c d e f g h i : A)
    → Perm (a ∷ d ∷ g ∷ b ∷ e ∷ h ∷ c ∷ f ∷ i ∷ []) (a ∷ b ∷ c ∷ d ∷ e ∷ f ∷ g ∷ h ∷ i ∷ [])
rows_columns a b c d e f g h i = Perm.cons a (
    Perm.trans (perm_middle (d ∷ g ∷ []) (e ∷ h ∷ c ∷ f ∷ i ∷ [])) (
      Perm.cons b (
        Perm.trans (perm_middle (d ∷ g ∷ e ∷ h ∷ []) (f ∷ i ∷ [])) (
          Perm.cons c (
            Perm.cons d (
              Perm.trans (perm_middle (g ∷ []) (h ∷ f ∷ i ∷ []))
                (Perm.cons e (perm_middle (g ∷ h ∷ []) (i ∷ [])))))))))

-- What a packet promises: a later value of a field replaces an earlier one, the two fields do not
-- touch each other, and the calculated signature does not depend on the one that stands there.
pub record IsPacket (packets : Packets) : Type 0 where
  pub connection_signature_twice :
      (s t : Str) (p : packets.Packet)
      → packets.set_connection_signature s (packets.set_connection_signature t p)
        ≡ packets.set_connection_signature s p
  pub signature_twice :
      (s t : Str) (p : packets.Packet)
      → packets.set_signature s (packets.set_signature t p) ≡ packets.set_signature s p
  pub set_comm :
      (s t : Str) (p : packets.Packet)
      → packets.set_connection_signature s (packets.set_signature t p)
        ≡ packets.set_signature t (packets.set_connection_signature s p)
  pub calculate_unsigned :
      (key input t : Str) (p : packets.Packet)
      → packets.calculate_signature key input (packets.set_signature t p)
        ≡ packets.calculate_signature key input p

module _ (packets : Packets) where
  open packets use {Packet, bytes, set_connection_signature, set_signature, calculate_signature}

  -- One combination's packet, from the packet at the start.
  abbrev pub variant : Signatures → Packet → Combo → Str
  variant s ack (sig, field) = bytes (shot packets s field sig ack)

  module _ (laws : IsPacket packets) where
    signed_again :
        (x y v w : Str) (p : Packet)
        → sign packets x
            (set_connection_signature v (sign packets y (set_connection_signature w p)))
          ≡ sign packets x (set_connection_signature v p)
    signed_again x y v w p =
        let t = calculate_signature [] y (set_connection_signature w p) in
        let q = set_connection_signature v p in
        let inner : set_connection_signature v (set_signature t (set_connection_signature w p))
            ≡ set_signature t q =
          laws.set_comm v t (set_connection_signature w p)
          ∙ ap (set_signature t) (laws.connection_signature_twice v w p) in
        ap (sign packets x) inner
        ∙ ap (λ c. set_signature c (set_signature t q)) (laws.calculate_unsigned [] x t q)
        ∙ laws.signature_twice (calculate_signature [] x q) t q

    shot_again :
        (s : Signatures) (f g f' g' : Str) (p : Packet)
        → shot packets s f g (shot packets s f' g' p) ≡ shot packets s f g p
    unfolding shot
    shot_again s f g f' g' p =
        signed_again (sig_inputs s g) (sig_inputs s g') (fields s f) (fields s f') p

    module _ (s : Signatures) (ack : Packet) where
      -- A packet whose later shots are those of the packet at the start.
      abbrev IsLike : Packet → Type 0
      IsLike q = (f g : Str) → shot packets s f g q ≡ shot packets s f g ack

      shots-map :
          (f : Str) (gs : List Str) (q : Packet)
          → IsLike q
          → ((shots packets s f gs q).0 ≡ map (λ g. variant s ack (g, f)) gs)
            × IsLike (shots packets s f gs q).1
      unfolding shots
      shots-map f [] q like = (refl, like)
      shots-map f (g ∷ gs) q like =
          let rest =
            shots-map f gs (shot packets s f g q)
              (λ f' g'. shot_again s f' g' f g q ∙ like f' g') in
          (
            ap (λ p. bytes p ∷ (shots packets s f gs (shot packets s f g q)).0) (like f g)
                ∙ ap (◌∷◌ (variant s ack (g, f))) rest.0,
            rest.1,
          )

      abbrev table : List Str → List Str
      table [] = []
      table (f ∷ fs) =
          map (λ g. variant s ack (g, f)) (txt "theirs" ∷ txt "ours" ∷ txt "empty" ∷ []) ++ table fs

      volleys-table :
          (fs : List Str) (q : Packet) → IsLike q → (volleys packets s fs q).0 ≡ table fs
      unfolding volleys
      volleys-table [] q like = refl
      volleys-table (f ∷ fs) q like =
          let sigs : List Str = txt "theirs" ∷ txt "ours" ∷ txt "empty" ∷ [] in
          let row = shots-map f sigs q like in
          ap (λ xs. xs ++ (volleys packets s fs (shots packets s f sigs q).1).0) row.0
          ∙ ap (λ ys. map (λ g. variant s ack (g, f)) sigs ++ ys)
              (volleys-table fs (shots packets s f sigs q).1 row.1)

      -- The nine packets that ffeShotgun sends are those of the nine combinations of ffeCombos, each
      -- made from the packet at the start, and each once.
      pub ffe_shotgun-Perm : Perm (ffe_shotgun packets s ack) (map (variant s ack) ffe_combos)
      unfolding ffe_shotgun
      ffe_shotgun-Perm =
          subst (λ xs. Perm xs (map (variant s ack) ffe_combos))
            (sym (volleys-table (txt "zeros" ∷ txt "ours" ∷ txt "theirs" ∷ []) ack (λ f g. refl)))
            (rows_columns _ _ _ _ _ _ _ _ _)

  abbrev by_mode : Signatures → ℕ → Packet → Str → Packet
  by_mode s size ack mode =
      if str_beq mode (txt "ours")
      then set_connection_signature s.ours ack
      else if str_beq mode (txt "theirs")
      then set_connection_signature s.theirs ack
      else set_connection_signature (zeros size) ack

  kept_field :
      (getenv : Env) (m : Experiment → Experiment) (e : Experiment)
      → cycles getenv ≡ true
      → ((x : Experiment) → (m x).current ≡ x.current)
      → ffe_conn_sig_field getenv (m (ffe_next_combo getenv e)) ≡ (combo_at (e.counter % 3)).1
  unfolding ffe_conn_sig_field ffe_combo
  kept_field getenv m e on keeps =
      ap
        (λ c.
          (if cycles getenv
            then or_first c
            else (getenv (txt "FFE_SIG_MODE"), getenv (txt "FFE_CONNSIG_FIELD"))).1)
        (keeps (ffe_next_combo getenv e))
      ∙ field_next getenv e on

  -- The combination in use is left as it is.
  abbrev pub Keeps : (Experiment → Experiment) → Type 0
  Keeps meanwhile = (x : Experiment) → (meanwhile x).current ≡ x.current

  -- With FFE_CYCLE=1, and where no CONNECT of another connection sets a combination between the two
  -- accesses: what a CONNECT is answered with depends on the counter by its remainder modulo 3 only.
  -- A packet, a connection and a setting in the same state get the same datagrams at every third
  -- count. The signature of a combination is not used.
  pub handle_connect_third :
      (getenv : Env) (finish : Packet → Option Packet) (connecting : Bool) (s : Signatures)
      (size : ℕ) (ack : Packet) (meanwhile meanwhile' : Experiment → Experiment) (e e' : Experiment)
      → cycles getenv ≡ true
      → Keeps meanwhile
      → Keeps meanwhile'
      → e.counter % 3 ≡ e'.counter % 3
      → (handle_connect packets getenv finish connecting s size ack meanwhile e).0
        ≡ (handle_connect packets getenv finish connecting s size ack meanwhile' e').0
  unfolding handle_connect with_field
  handle_connect_third getenv finish connecting s size ack m m' e e' on keeps keeps' same =
      ap
        (λ mode.
          if connecting then sent_after packets getenv s (finish (by_mode s size ack mode)) else [])
        (kept_field getenv m e on keeps
          ∙ ap (λ i. (combo_at i).1) same
          ∙ sym (kept_field getenv m' e' on keeps'))
