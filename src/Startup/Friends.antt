-- ===== src/Startup/Friends.antt =====
-- Friends-only rooms: who is whose friend.
use mathlib.Core.List.{Mem, mem-cons_self, mem-cons_of_mem}
use mathlib.Core.Path.{subst}
use fbf_3ds_servers.Base.{
  ℕ, ◌≡◌, ◌≢◌, refl, sym, inl, inr, Bool-cases, Option-cases, none, some, List, [], ◌∷◌, Str,
  str_beq, str_beq_iff, str_eq, beq_refl, lookup, All, parse_uint, arith,
}
use fbf_3ds_servers.Accounts.Store.{Accounts, get, all_pids}
use fbf_3ds_servers.Startup.Callbacks.{get_user_friend_pids}

-- A registered text that reads as the number of 32 bits.
abbrev pub IsRegistered : Accounts → ℕ → Type 0
IsRegistered m n = (k : Str) × (parse_uint 32 k ≡ some n) × (get m k ≢ none)

known_later : (k j : Str) (pw : Str) (m : Accounts) → get m k ≢ none → get ((j, pw) ∷ m) k ≢ none
unfolding get lookup
known_later k j pw m h e = elim (Bool-cases (str_beq j k)) [
  | inl same ↦ ground arith
  | inr other ↦ h (ground arith)
]

All-later :
    (j pw : Str) (m : Accounts) (ns : List ℕ)
    → All (IsRegistered m) ns
    → All (IsRegistered ((j, pw) ∷ m)) ns
All-later j pw m [] h = tt
All-later j pw m (n ∷ ns) h =
    let (k, e, known) = h.0 in ((k, e, known_later k j pw m known), All-later j pw m ns h.1)

all_pids_nil : [] ≡ all_pids []
unfolding all_pids
all_pids_nil = refl

all_pids_bad :
    (j pw : Str) (m : Accounts) → parse_uint 32 j ≡ none → all_pids ((j, pw) ∷ m) ≡ all_pids m
unfolding all_pids
all_pids_bad j pw m e = rw (e, all_pids) refl

all_pids_good :
    (j pw : Str) (m : Accounts) {n : ℕ}
    → parse_uint 32 j ≡ some n
    → all_pids ((j, pw) ∷ m) ≡ n ∷ all_pids m
unfolding all_pids
all_pids_good j pw m e = rw (e, all_pids) refl

known_here : (j pw : Str) (m : Accounts) → get ((j, pw) ∷ m) j ≢ none
unfolding get lookup
known_here j pw m e = let same = beq_refl j in ground arith

all_pids-IsRegistered : (m : Accounts) → All (IsRegistered m) (all_pids m)
all_pids-IsRegistered [] = subst (All (IsRegistered [])) all_pids_nil tt
all_pids-IsRegistered ((j, pw) ∷ m) =
    let rest = All-later j pw m (all_pids m) (all_pids-IsRegistered m) in
    elim (Option-cases (parse_uint 32 j)) [
      | inl bad ↦ rw (all_pids_bad j pw m bad) rest
      | inr (n, good) ↦ rw (all_pids_good j pw m good) ((j, good, known_here j pw m), rest)
    ]

Mem-all_pids :
    (m : Accounts) (k : Str) {n : ℕ}
    → parse_uint 32 k ≡ some n
    → get m k ≢ none
    → Mem n (all_pids m)
unfolding get lookup
Mem-all_pids [] k e h = absurd (h refl)
Mem-all_pids ((j, pw) ∷ m) k {n} e h = elim (Bool-cases (str_beq j k)) [
  | inl same ↦
      let here : parse_uint 32 j ≡ some n =
        subst (λ i. parse_uint 32 i ≡ some n) (sym ((str_beq_iff j k).0 same)) e in
      rw (all_pids_good j pw m here) mem-cons_self
  | inr other ↦
      let rest = Mem-all_pids m k e (λ f. h (ground arith)) in
      elim (Option-cases (parse_uint 32 j)) [
        | inl bad ↦ rw (all_pids_bad j pw m bad) rest
        | inr (i, good) ↦ rw (all_pids_good j pw m good) (mem-cons_of_mem i rest)
      ]
]

-- Whoever asks, the friends are exactly the consoles of the account store: each is a number of 32
-- bits that a registered text reads as, and each registered text that reads as such a number is among
-- them. Texts that do not are nobody's friends.
pub friends_lem :
    (m : Accounts) (asker : ℕ)
    → All (IsRegistered m) (get_user_friend_pids m asker)
      × ((n : ℕ) → IsRegistered m n → Mem n (get_user_friend_pids m asker))
unfolding get_user_friend_pids
friends_lem m asker =
    (all_pids-IsRegistered m, λ n r. let (k, e, known) = r in Mem-all_pids m k e known)
