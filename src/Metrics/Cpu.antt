-- ===== src/Metrics/Cpu.antt =====
-- The counters of /proc/stat are read back from the text that the kernel prints.
use mathlib.Core.Path.{subst, ap₂}
use mathlib.Core.List.{append-nil}
use fbf_3ds_servers.Base.{
  ℕ, ◌+◌, ◌%◌, ◌≤◌, ◌<◌, ◌^◌, ◌≡◌, refl, sym, ap, ◌∙◌, inl, inr, Bool-cases, true, false, ◌||◌,
  some, List, [], ◌∷◌, ◌++◌, map, Str, txt, nat_beq, ltb, length, if◌then◌else◌, All, IsFree,
  IsDigit, IsWord, is_blank, fields, fields_blank, fields-append, fields_of_IsWord, first_line,
  first_line-append, format_uint, format_uint_cons, format_uint-IsDigit, saturated-format_uint,
  arith,
}
use fbf_3ds_servers.Metrics.{word_max, cpu_loop, cpu_fields, read_cpu}

pair_eq : {a a' b b' : ℕ} → a ≡ a' → b ≡ b' → ◌≡◌ {A = ℕ × ℕ} (a, b) (a', b')
pair_eq p q = ap₂ (λ x y. (x, y)) p q

-- Numbers, each behind a space.
abbrev pub numbers : List ℕ → Str
numbers [] = []
numbers (n ∷ ns) = 32 ∷ (format_uint n ++ numbers ns)

-- The first line of /proc/stat, and what follows it.
abbrev pub stat_text : List ℕ → Str → Str
stat_text ns rest = b'c' ∷ b'p' ∷ b'u' ∷ 32 ∷ (numbers ns ++ 10 ∷ rest)

abbrev pub sum : List ℕ → ℕ
sum [] = 0
sum (n ∷ ns) = n + sum ns

digits-IsWord : (s : Str) → All IsDigit s → IsWord s
digits-IsWord [] h = tt
digits-IsWord (c ∷ s) h = (ground arith, digits-IsWord s h.1)

digits-IsFree : (s : Str) → All IsDigit s → IsFree 10 s
digits-IsFree [] h = tt
digits-IsFree (c ∷ s) h = (omega arith, digits-IsFree s h.1)

IsFree-append : (x y : Str) → IsFree 10 x → IsFree 10 y → IsFree 10 (x ++ y)
IsFree-append [] y h k = k
IsFree-append (c ∷ x) y h k = (h.0, IsFree-append x y h.1 k)

numbers-IsFree : (ns : List ℕ) → IsFree 10 (numbers ns)
numbers-IsFree [] = tt
numbers-IsFree (n ∷ ns) = (
  omega arith,
  IsFree-append (format_uint n) (numbers ns) (digits-IsFree _ (format_uint-IsDigit n))
      (numbers-IsFree ns),
)

-- A number at the head is the first field.
fields-number :
    (n b : ℕ) (s : Str)
    → is_blank b ≡ true
    → fields (format_uint n ++ b ∷ s) ≡ format_uint n ∷ fields s
fields-number n b s h =
    let (c, x, e) = format_uint_cons n in
    let word : IsWord (c ∷ x) = subst IsWord e (digits-IsWord _ (format_uint-IsDigit n)) in
    rw e (fields-append c x s b h word)

fields_of_number : (n : ℕ) → fields (format_uint n) ≡ format_uint n ∷ []
fields_of_number n =
    let (c, x, e) = format_uint_cons n in
    let word : IsWord (c ∷ x) = subst IsWord e (digits-IsWord _ (format_uint-IsDigit n)) in
    rw e (fields_of_IsWord c x word)

fields-nil : fields [] ≡ []
unfolding fields
fields-nil = refl

fields-numbers : (ns : List ℕ) → fields (numbers ns) ≡ map format_uint ns
fields-numbers [] = fields-nil
fields-numbers (n ∷ []) =
    fields_blank _ 32 refl ∙ ap fields (append-nil (format_uint n)) ∙ fields_of_number n
fields-numbers (n ∷ m ∷ ns) =
    fields_blank _ 32 refl
    ∙ fields-number n 32 (format_uint m ++ numbers ns) refl
    ∙ ap (◌∷◌ (format_uint n)) (sym (fields_blank _ 32 refl) ∙ fields-numbers (m ∷ ns))

first_line-stat_text :
    (ns : List ℕ) (rest : Str)
    → first_line (stat_text ns rest) ≡ b'c' ∷ b'p' ∷ b'u' ∷ 32 ∷ numbers ns
first_line-stat_text ns rest =
    first_line-append (b'c' ∷ b'p' ∷ b'u' ∷ 32 ∷ numbers ns) rest
      (omega arith, (omega arith, (omega arith, (omega arith, numbers-IsFree ns))))

fields-stat_text :
    (ns : List ℕ) (rest : Str)
    → fields (first_line (stat_text ns rest)) ≡ txt "cpu" ∷ map format_uint ns
fields-stat_text ns rest =
    ap fields (first_line-stat_text ns rest)
    ∙ fields-append b'c' (b'p' ∷ b'u' ∷ []) (numbers ns) 32 refl (refl, (refl, (refl, tt)))
    ∙ ap (◌∷◌ (txt "cpu")) (fields-numbers ns)

-- The counters at the places 4 and 5, from the `i`-th on.
abbrev idle_from : ℕ → List ℕ → ℕ
idle_from i [] = 0
idle_from i (n ∷ ns) = (if nat_beq i 4 || nat_beq i 5 then n else 0) + idle_from (i + 1) ns

idle_from_above : (i : ℕ) (ns : List ℕ) → 5 < i → idle_from i ns ≡ 0
idle_from_above i [] h = refl
idle_from_above i (n ∷ ns) h = ground (arith, idle_from_above (i + 1) ns)

cpu_loop-numbers :
    (i : ℕ) (ns : List ℕ) (idle total : ℕ)
    → All (λ n. n < 2 ^ 64) ns
    → idle < word_max
    → total < word_max
    → cpu_loop i (map format_uint ns) idle total
      ≡ ((idle + idle_from i ns) % word_max, (total + sum ns) % word_max)
unfolding cpu_loop
cpu_loop-numbers i [] idle total h p q = pair_eq (omega arith) (omega arith)
cpu_loop-numbers i (n ∷ ns) idle total h p q =
    ap
      (λ v.
        cpu_loop (i + 1) (map format_uint ns)
          (if nat_beq i 4 || nat_beq i 5 then (idle + v) % word_max else idle)
          ((total + v) % word_max))
      (saturated-format_uint n h.0)
    ∙ elim (Bool-cases (nat_beq i 4 || nat_beq i 5)) [
      | inl here ↦ rw here (
          cpu_loop-numbers (i + 1) ns ((idle + n) % word_max) ((total + n) % word_max) h.1
            (omega arith) (omega arith)
          ∙ pair_eq (omega arith) (omega arith))
      | inr other ↦ rw other (
          cpu_loop-numbers (i + 1) ns idle ((total + n) % word_max) h.1 p (omega arith)
          ∙ pair_eq (omega arith) (omega arith))
    ]

length-map {ℓ κ} :
    {A : Type ℓ} {B : Type κ} (f : A → B) (xs : List A) → length (map f xs) ≡ length xs
length-map f [] = refl
length-map f (x ∷ xs) = omega (arith, length-map f xs)

cpu_fields-numbers :
    (ns : List ℕ)
    → 7 ≤ length ns
    → All (λ n. n < 2 ^ 64) ns
    → cpu_fields (txt "cpu" ∷ map format_uint ns) ≡ (idle_from 1 ns % word_max, sum ns % word_max)
unfolding cpu_fields
cpu_fields-numbers ns long h =
    let many : ltb (length (map format_uint ns) + 1) 8 ≡ false =
      ground (arith, length-map format_uint ns) in
    ground
      (arith, length-map format_uint ns, cpu_loop-numbers 1 ns 0 0 h (omega arith) (omega arith))

-- From a text whose first line holds at least seven counters of 64 bits, in the kernel's order and
-- form, readCPU gives idle with iowait, and the sum of all counters, both modulo 2 ^ 64.
pub read_cpu_lem :
    (user nice system idle iowait : ℕ) (more : List ℕ) (rest : Str)
    → All (λ n. n < 2 ^ 64) (user ∷ nice ∷ system ∷ idle ∷ iowait ∷ more)
    → 2 ≤ length more
    → read_cpu (some (stat_text (user ∷ nice ∷ system ∷ idle ∷ iowait ∷ more) rest))
      ≡ ((idle + iowait) % word_max, sum (user ∷ nice ∷ system ∷ idle ∷ iowait ∷ more) % word_max)
unfolding read_cpu
read_cpu_lem user nice system idle iowait more rest h long =
    let ns : List ℕ = user ∷ nice ∷ system ∷ idle ∷ iowait ∷ more in
    ap cpu_fields (fields-stat_text ns rest)
    ∙ cpu_fields-numbers ns (omega arith) h
    ∙ pair_eq (ap (λ n. n % word_max) (omega (arith, idle_from_above 6 more))) refl
