-- ===== src/Browse/Tests.antt =====
-- Browsing at concrete searches. A room holds nothing but its ID and its secrets.
use mathlib.Core.Option
use fbf_3ds_servers.Base.{
  ℕ, ◌≡◌, ◌≤◌, inl, inr, refl, true, false, none, some, List, [], ◌∷◌, map, Str, txt, pos, negsuc,
  atoi, split, trim_space, str_beq, str_eq, nat_eq, length, get_elem?, if◌then◌else◌, arith,
}
use fbf_3ds_servers.Browse.{
  Session, Matchmaking, parse_attr_indices, set_empty, blank, is_seen, insert_by_id, sort_by_id,
  dedupe, scrub, prepare, browse,
}
use fbf_3ds_servers.Browse.Rooms.{room, Rises, prepare_stable, browse_rooms}

program : Unit {0}
unfolding parse_attr_indices set_empty blank is_seen insert_by_id sort_by_id dedupe scrub prepare
    browse split trim_space atoi
program = tt

abbrev lobby : ℕ → Str → Session (Unit {0})
lobby id secret = record { id = id; session_key = secret; user_password = secret; other = tt }

abbrev hidden : ℕ → Session (Unit {0})
hidden id = lobby id []

abbrev found : List (Session (Unit {0}))
found = lobby 9 (txt "i") ∷ lobby 4 (txt "d") ∷ lobby 9 (txt "j") ∷ []

abbrev found_later : List (Session (Unit {0}))
found_later = lobby 4 (txt "d") ∷ lobby 9 (txt "i") ∷ []

-- The query finds the rooms if the second attribute is blank; a list is encoded by its length.
abbrev library : Matchmaking (Unit {0})
library = record {
  Criteria = Unit;
  Range = Unit;
  Failure = ℕ;
  invalid_argument = 5;
  find = λ caller attribs criteria range.
      if str_beq (elim (get_elem? attribs 1) [ none ↦ txt "?" | some a ↦ a ]) []
      then inr found
      else inr [];
  write_list = λ ss. map (λ s. s.id) ss;
}

browse_tests :
    (parse_attr_indices (txt " 1,x,,-3") ≡ pos 1 ∷ negsuc 2 ∷ [])
    × (prepare found ≡ hidden 4 ∷ hidden 9 ∷ [])
    × (browse library (pos 1 ∷ []) false 1900 7 (txt "a" ∷ txt "b" ∷ []) tt tt
        ≡ inr (record { call_id = 7; body = 4 ∷ 9 ∷ [] }))
    × (browse library [] true 1900 7 [] tt tt ≡ inl 5)
unfolding program
browse_tests = (refl, refl, refl, refl)

prepare_stable_example : prepare found ≡ prepare found_later
prepare_stable_example = prepare_stable found found_later (λ i. ground arith)

browse_rooms_example :
    (rooms : List (Session (Unit {0}))) × (browse library
        (pos 1 ∷ [])
        false
        1900
        7
        (txt "a" ∷ txt "b" ∷ [])
        tt
        tt
      ≡ inr (record { call_id = 7; body = map (λ s. s.id) rooms }))
    × Rises rooms
    × ((i : ℕ) → room i rooms ≡ Option.map scrub (room i found))
    × (length rooms ≤ length found)
unfolding program
browse_rooms_example =
    browse_rooms library (pos 1 ∷ []) 1900 7 (txt "a" ∷ txt "b" ∷ []) tt tt {sessions = found} refl
