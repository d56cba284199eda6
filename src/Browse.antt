-- ===== src/Browse.antt =====
-- server/browse_handler.go: the replacement of the handler BrowseMatchmakeSession, and the list of
-- attribute indices that server/main.go hands it.
pub mod Rooms
pub mod Attributes
mod Tests
use fbf_3ds_servers.Base.{
  ℕ, zero, suc, Bool, true, false, not, ◌||◌, Option, none, some, ◌⊎◌, inl, inr, List, [], ◌∷◌, map,
  Str, txt, str_beq, nat_beq, leb, if◌then◌else◌, ℤ, pos, negsuc, atoi, split, trim_space,
}

-- parseAttrIndices: what is no number is passed over.
attr_parts : List Str → List ℤ
attr_parts [] = []
attr_parts (part ∷ parts) =
    let rest = attr_parts parts in
    if str_beq (trim_space part) []
    then rest
    else elim (atoi (trim_space part)) [ none ↦ rest | some n ↦ n ∷ rest ]

unfoldable pub parse_attr_indices : Str → List ℤ
unfolding attr_parts
parse_attr_indices s = attr_parts (split b',' s)

-- A write at an index that is out of range is left out.
set_empty : ℕ → List Str → List Str
set_empty i [] = []
set_empty zero (a ∷ rest) = [] ∷ rest
set_empty (suc i) (a ∷ rest) = a ∷ set_empty i rest

-- The loop over wildcardIdx: `if j >= 0 && j < len(searchCriteria.Attribs)`.
unfoldable pub blank : List ℤ → List Str → List Str
unfolding set_empty
blank [] attribs = attribs
blank (pos j ∷ js) attribs = blank js (set_empty j attribs)
blank (negsuc j ∷ js) attribs = blank js attribs

module _ {ℓ} (A : Type ℓ) where
  -- A room: its gathering ID, the two secrets, and all else that the library keeps of it.
  pub record Session : Type ℓ where
    pub id : ℕ
    pub session_key : Str
    pub user_password : Str
    pub other : A

-- `seen[id]`
is_seen : ℕ → List ℕ → Bool
is_seen id [] = false
is_seen id (j ∷ seen) = nat_beq j id || is_seen id seen

module _ {ℓ} {A : Type ℓ} where
  -- sort.SliceStable by ID: a room goes before the rooms with the same ID that came after it.
  insert_by_id : Session A → List (Session A) → List (Session A)
  insert_by_id s [] = s ∷ []
  insert_by_id s (t ∷ ts) = if leb s.id t.id then s ∷ t ∷ ts else t ∷ insert_by_id s ts

  pub sort_by_id : List (Session A) → List (Session A)
  sort_by_id [] = []
  sort_by_id (s ∷ ss) = insert_by_id s (sort_by_id ss)

  -- The loop that keeps the first room of each ID.
  pub dedupe : List ℕ → List (Session A) → List (Session A)
  dedupe seen [] = []
  dedupe seen (s ∷ ss) =
      let skipped = dedupe seen ss in
      let kept = s ∷ dedupe (s.id ∷ seen) ss in if is_seen s.id seen then skipped else kept

  -- The secrets are emptied before a room is sent.
  pub scrub : Session A → Session A
  scrub s = record s { session_key = []; user_password = [] }

  -- From the rooms that the query found to the rooms that are sent.
  unfoldable pub prepare : List (Session A) → List (Session A)
  prepare ss = map scrub (dedupe [] (sort_by_id ss))

-- What the handler is given of the matchmaking library: the query, over the attributes and the rest
-- of the search criteria, for a caller and a range, and the encoding of a list of rooms.
pub record Matchmaking {ℓ} (A : Type ℓ) : Type (ℓ + 1) where
  pub Criteria : Type 0
  pub Range : Type 0
  pub Failure : Type 0
  pub invalid_argument : Failure
  pub find : ℕ → List Str → Criteria → Range → Failure ⊎ List (Session A)
  pub write_list : List (Session A) → Str

pub record Reply : Type 0 where
  pub call_id : ℕ
  pub body : Str

module _ {ℓ} {A : Type ℓ} (mm : Matchmaking A) where
  open mm use {Criteria, Range, Failure, invalid_argument, find, write_list}

  -- browseMatchmakeSessionStable: `failed` says that the request could not be parsed.
  unfoldable pub browse : List ℤ → Bool → ℕ → ℕ → List Str → Criteria → Range → Failure ⊎ Reply
  browse wildcards failed caller call_id attribs criteria range =
      if failed
      then inl invalid_argument
      else elim (find caller (blank wildcards attribs) criteria range) [
        | inl failure ↦ inl failure
        | inr sessions ↦ inr (record { call_id = call_id; body = write_list (prepare sessions) })
      ]
