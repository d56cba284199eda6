-- ===== src/Browse/Rooms.antt =====
-- The list of rooms that a console gets.
use mathlib.Core.Option
use mathlib.Core.Path.{ap₂, subst}
use fbf_3ds_servers.Base.{
  ℕ, ℤ, Str, ◌+◌, ◌≤◌, ◌<◌, ◌≡◌, ◌≢◌, refl, sym, ap, ◌∙◌, inl, inr, true, false, Option, none, some,
  List, [], ◌∷◌, map, length, All, nat_beq, nat_beq_iff, leb, if◌then◌else◌, Bool-cases, arith,
}
use fbf_3ds_servers.Browse.{
  Session, insert_by_id, sort_by_id, is_seen, dedupe, scrub, prepare, Matchmaking, blank, browse,
}

module _ {ℓ} {A : Type ℓ} where
  -- The first room with an ID.
  abbrev pub room : ℕ → List (Session A) → Option (Session A)
  room i [] = none
  room i (s ∷ ss) = if nat_beq s.id i then some s else room i ss

  -- The IDs rise strictly, so that no room is listed twice.
  abbrev pub Rises : List (Session A) → Type 0
  Rises [] = Unit
  Rises (s ∷ ss) = All (λ t. s.id < t.id) ss × Rises ss

  abbrev RisesWeakly : List (Session A) → Type 0
  RisesWeakly [] = Unit
  RisesWeakly (s ∷ ss) = All (λ t. s.id ≤ t.id) ss × RisesWeakly ss

  room-insert_by_id :
      (i : ℕ) (s : Session A) (ss : List (Session A)) → room i (insert_by_id s ss) ≡ room i (s ∷ ss)
  unfolding insert_by_id
  room-insert_by_id i s [] = refl
  room-insert_by_id i s (t ∷ ts) = ground (arith, room-insert_by_id i s ts)

  room-sort_by_id : (i : ℕ) (ss : List (Session A)) → room i (sort_by_id ss) ≡ room i ss
  unfolding sort_by_id
  room-sort_by_id i [] = refl
  room-sort_by_id i (s ∷ ss) =
      ground (arith, room-insert_by_id i s (sort_by_id ss), room-sort_by_id i ss)

  room-dedupe :
      (i : ℕ) (seen : List ℕ) (ss : List (Session A))
      → room i (dedupe seen ss) ≡ (if is_seen i seen then none else room i ss)
  unfolding dedupe is_seen
  room-dedupe i seen [] = ground arith
  room-dedupe i seen (s ∷ ss) =
      ground (arith, room-dedupe i seen ss, room-dedupe i (s.id ∷ seen) ss)

  room-scrub :
      (i : ℕ) (ss : List (Session A)) → room i (map scrub ss) ≡ Option.map scrub (room i ss)
  unfolding scrub
  room-scrub i [] = refl
  room-scrub i (s ∷ ss) = ground (arith, room-scrub i ss)

  All-insert_by_id {κ} :
      (P : Session A → Type κ) (s : Session A) (ss : List (Session A))
      → P s
      → All P ss
      → All P (insert_by_id s ss)
  unfolding insert_by_id
  All-insert_by_id P s [] p h = (p, tt)
  All-insert_by_id P s (t ∷ ts) p h = elim (Bool-cases (leb s.id t.id)) [
    | inl le ↦ rw le (p, h)
    | inr gt ↦ rw gt (h.0, All-insert_by_id P s ts p h.1)
  ]

  All-le_trans :
      (a b : ℕ) (ss : List (Session A)) → a ≤ b → All (λ t. b ≤ t.id) ss → All (λ t. a ≤ t.id) ss
  All-le_trans a b [] le h = tt
  All-le_trans a b (s ∷ ss) le h = (omega arith, All-le_trans a b ss le h.1)

  insert_by_id-RisesWeakly :
      (s : Session A) (ss : List (Session A)) → RisesWeakly ss → RisesWeakly (insert_by_id s ss)
  unfolding insert_by_id
  insert_by_id-RisesWeakly s [] h = (tt, tt)
  insert_by_id-RisesWeakly s (t ∷ ts) h = elim (Bool-cases (leb s.id t.id)) [
    | inl le ↦
        let st : s.id ≤ t.id = ground arith in rw le ((st, All-le_trans s.id t.id ts st h.0), h)
    | inr gt ↦ rw gt (
      All-insert_by_id (λ u. t.id ≤ u.id) s ts (ground arith) h.0,
      insert_by_id-RisesWeakly s ts h.1,
    )
  ]

  sort_by_id-RisesWeakly : (ss : List (Session A)) → RisesWeakly (sort_by_id ss)
  unfolding sort_by_id
  sort_by_id-RisesWeakly [] = tt
  sort_by_id-RisesWeakly (s ∷ ss) =
      insert_by_id-RisesWeakly s (sort_by_id ss) (sort_by_id-RisesWeakly ss)

  -- What is kept lies above the bound, and is none of those seen.
  dedupe_above :
      (a : ℕ) (seen : List ℕ) (ss : List (Session A))
      → All (λ t. a ≤ t.id) ss
      → is_seen a seen ≡ true
      → All (λ t. a < t.id) (dedupe seen ss)
  unfolding dedupe is_seen
  dedupe_above a seen [] h m = tt
  dedupe_above a seen (s ∷ ss) h m = elim (Bool-cases (is_seen s.id seen)) [
    | inl old ↦ rw old (dedupe_above a seen ss h.1 m)
    | inr new ↦ rw new (
      (let other : a ≢ s.id = λ e. cc in omega arith),
      dedupe_above a (s.id ∷ seen) ss h.1 (ground arith),
    )
  ]

  dedupe-Rises : (seen : List ℕ) (ss : List (Session A)) → RisesWeakly ss → Rises (dedupe seen ss)
  unfolding dedupe is_seen
  dedupe-Rises seen [] h = tt
  dedupe-Rises seen (s ∷ ss) h = elim (Bool-cases (is_seen s.id seen)) [
    | inl old ↦ rw old (dedupe-Rises seen ss h.1)
    | inr new ↦
        rw new
          (dedupe_above s.id (s.id ∷ seen) ss h.0 (ground arith), dedupe-Rises (s.id ∷ seen) ss h.1)
  ]

  All-scrub :
      (a : ℕ) (ss : List (Session A)) → All (λ t. a < t.id) ss → All (λ t. a < t.id) (map scrub ss)
  unfolding scrub
  All-scrub a [] h = tt
  All-scrub a (s ∷ ss) h = (h.0, All-scrub a ss h.1)

  scrub-Rises : (ss : List (Session A)) → Rises ss → Rises (map scrub ss)
  unfolding scrub
  scrub-Rises [] h = tt
  scrub-Rises (s ∷ ss) h = (All-scrub s.id ss h.0, scrub-Rises ss h.1)

  length-insert_by_id :
      (s : Session A) (ss : List (Session A)) → length (insert_by_id s ss) ≡ length ss + 1
  unfolding insert_by_id
  length-insert_by_id s [] = omega arith
  length-insert_by_id s (t ∷ ts) = ground (arith, length-insert_by_id s ts)

  length-sort_by_id : (ss : List (Session A)) → length (sort_by_id ss) ≡ length ss
  unfolding sort_by_id
  length-sort_by_id [] = refl
  length-sort_by_id (s ∷ ss) =
      omega (arith, length-insert_by_id s (sort_by_id ss), length-sort_by_id ss)

  length-dedupe : (seen : List ℕ) (ss : List (Session A)) → length (dedupe seen ss) ≤ length ss
  unfolding dedupe
  length-dedupe seen [] = omega arith
  length-dedupe seen (s ∷ ss) =
      ground (arith, length-dedupe seen ss, length-dedupe (s.id ∷ seen) ss)

  length-scrub : (ss : List (Session A)) → length (map scrub ss) ≡ length ss
  length-scrub [] = refl
  length-scrub (s ∷ ss) = omega (arith, length-scrub ss)

  -- Strictly rising lists that name the same room for each ID are the same list.
  room_below : (a : ℕ) (ss : List (Session A)) → All (λ t. a < t.id) ss → room a ss ≡ none
  room_below a [] h = refl
  room_below a (s ∷ ss) h = ground (arith, room_below a ss h.1)

  All-lt_trans :
      (a b : ℕ) (ss : List (Session A)) → a ≤ b → All (λ t. b < t.id) ss → All (λ t. a < t.id) ss
  All-lt_trans a b [] le h = tt
  All-lt_trans a b (s ∷ ss) le h = (omega arith, All-lt_trans a b ss le h.1)

  rooms_ext :
      (xs ys : List (Session A)) → Rises xs → Rises ys → ((i : ℕ) → room i xs ≡ room i ys) → xs ≡ ys
  rooms_ext [] [] p q h = refl
  rooms_ext [] (y ∷ ys) p q h = absurd (ground (arith, h y.id))
  rooms_ext (x ∷ xs) [] p q h = absurd (ground (arith, h x.id))
  rooms_ext (x ∷ xs) (y ∷ ys) p q h =
      let same_id : x.id ≡ y.id = grind (
        arith,
        h x.id,
        h y.id,
        room_below x.id ys,
        room_below y.id xs,
        All-lt_trans y.id x.id xs,
        All-lt_trans x.id y.id ys,
      ) in
      let same : x ≡ y = ground (arith, h x.id) in
      ap₂ ◌∷◌ same (
        rooms_ext xs ys p.1 q.1 (λ i. elim (Bool-cases (nat_beq x.id i)) [
          | inl here ↦
              subst (λ j. room j xs ≡ room j ys) ((nat_beq_iff x.id i).0 here)
                (room_below x.id xs p.0
                  ∙ sym (room_below x.id ys (All-lt_trans x.id y.id ys (omega arith) q.0)))
          | inr other ↦ ground (arith, h i)
        ]))

  prepare-Rises : (ss : List (Session A)) → Rises (prepare ss)
  unfolding prepare
  prepare-Rises ss =
      scrub-Rises (dedupe [] (sort_by_id ss))
        (dedupe-Rises [] (sort_by_id ss) (sort_by_id-RisesWeakly ss))

  room-prepare :
      (i : ℕ) (ss : List (Session A)) → room i (prepare ss) ≡ Option.map scrub (room i ss)
  unfolding prepare is_seen
  room-prepare i ss =
      room-scrub i (dedupe [] (sort_by_id ss))
      ∙ ap (Option.map scrub) (room-dedupe i [] (sort_by_id ss) ∙ room-sort_by_id i ss)

  length-prepare : (ss : List (Session A)) → length (prepare ss) ≤ length ss
  unfolding prepare
  length-prepare ss = omega (
    arith,
    length-scrub (dedupe [] (sort_by_id ss)),
    length-dedupe [] (sort_by_id ss),
    length-sort_by_id ss,
  )

  -- Two query results that name the same room for each ID, such as one result in two orders with no
  -- ID twice, give the console the same list.
  pub prepare_stable :
      (xs ys : List (Session A)) → ((i : ℕ) → room i xs ≡ room i ys) → prepare xs ≡ prepare ys
  prepare_stable xs ys h =
      rooms_ext (prepare xs) (prepare ys) (prepare-Rises xs) (prepare-Rises ys)
        (λ i. room-prepare i xs ∙ ap (Option.map scrub) (h i) ∙ sym (room-prepare i ys))

  -- A browse whose query succeeds is answered with a list of rooms in which the IDs rise strictly,
  -- each ID names the first room that the query found for it, with the session key and the password
  -- emptied, and no other ID occurs; it is no longer than the query's result.
  pub browse_rooms :
      (mm : Matchmaking A) (wildcards : List ℤ) (caller call_id : ℕ) (attribs : List Str)
      (criteria : mm.Criteria) (range : mm.Range) {sessions : List (Session A)}
      → mm.find caller (blank wildcards attribs) criteria range ≡ inr sessions
      → (rooms : List (Session A)) × (browse mm wildcards false caller call_id attribs criteria
            range
          ≡ inr (record { call_id = call_id; body = mm.write_list rooms }))
        × Rises rooms
        × ((i : ℕ) → room i rooms ≡ Option.map scrub (room i sessions))
        × (length rooms ≤ length sessions)
  unfolding browse
  browse_rooms mm wildcards caller call_id attribs criteria range {sessions} h = (
    prepare sessions,
    rw (h, browse),
    prepare-Rises sessions,
    λ i. room-prepare i sessions,
    length-prepare sessions,
  )
