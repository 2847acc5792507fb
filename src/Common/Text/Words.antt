-- ===== src/Common/Text/Words.antt =====
-- Texts whose words are separated by a character: what `strchr` finds, and where a C string ends.
use lib_ftn.Common.{ℕ, zero, suc, ◌+◌, ◌/◌, ◌%◌, ◌≤◌, ◌<◌, arith, ◌≡◌, refl, some}
use lib_ftn.Common.{true, false, List, [], ◌∷◌, ◌++◌, ltb, ◌==◌, All, length, Bool-cases, inl, inr}
use lib_ftn.Common.Text.{c_string, split_at_char, decimal_loop, decimal}

-- The characters that stand in no text's place: not 0.
abbrev pub IsText : List ℕ → Type 0
IsText s = All (λ c. 0 < c) s

pub c_string-IsText : (s : List ℕ) → IsText s → c_string s ≡ s
unfolding c_string
c_string-IsText [] h = refl
c_string-IsText (c ∷ s) (p, h) =
    let nonzero : (c == 0) ≡ false = ground arith in rw (nonzero, c_string-IsText s h)

pub IsText-append : (s t : List ℕ) → IsText s → IsText t → IsText (s ++ t)
IsText-append [] t h k = k
IsText-append (c ∷ s) t (p, h) k = (p, IsText-append s t h k)

pub split_at_char-other :
    (x : ℕ) (word rest : List ℕ)
    → All (λ c. (c == x) ≡ false) word
    → split_at_char x (word ++ (x ∷ rest)) ≡ some (word, rest)
unfolding split_at_char
split_at_char-other x [] rest h = let same : (x == x) ≡ true = ground arith in rw same
split_at_char-other x (c ∷ word) rest (p, h) = rw (p, split_at_char-other x word rest h)

past_other : (x : ℕ) (word : List ℕ) → All (λ c. x < c) word → All (λ c. (c == x) ≡ false) word
past_other x [] h = tt
past_other x (c ∷ word) (p, h) = (ground arith, past_other x word h)

pub split_at_char-word :
    (x : ℕ) (word rest : List ℕ)
    → All (λ c. x < c) word
    → split_at_char x (word ++ (x ∷ rest)) ≡ some (word, rest)
split_at_char-word x word rest h = split_at_char-other x word rest (past_other x word h)

-- The characters past the space.
abbrev pub IsSolid : List ℕ → Type 0
IsSolid s = All (λ c. 32 < c) s

pub solid-IsText : (s : List ℕ) → IsSolid s → IsText s
solid-IsText [] h = tt
solid-IsText (c ∷ s) (p, h) = (omega arith, solid-IsText s h)

loop-IsSolid : (fuel n : ℕ) (later : List ℕ) → IsSolid later → IsSolid (decimal_loop fuel n later)
unfolding decimal_loop
loop-IsSolid zero n later h = h
loop-IsSolid (suc fuel) n later h = elim (Bool-cases (ltb n 10)) [
  | inl one ↦ rw one (omega arith, h)
  | inr more ↦ rw more (loop-IsSolid fuel (n / 10) ((48 + n % 10) ∷ later) (omega arith, h))
]

pub decimal-IsSolid : (n : ℕ) → IsSolid (decimal n)
unfolding decimal
decimal-IsSolid n = loop-IsSolid (suc n) n [] tt

pub decimal-IsText : (n : ℕ) → IsText (decimal n)
decimal-IsText n = solid-IsText (decimal n) (decimal-IsSolid n)

loop_longer : (fuel n : ℕ) (later : List ℕ) → length later ≤ length (decimal_loop fuel n later)
unfolding decimal_loop
loop_longer zero n later = omega arith
loop_longer (suc fuel) n later = elim (Bool-cases (ltb n 10)) [
  | inl one ↦ rw one (omega arith)
  | inr more ↦ rw more (omega (arith, loop_longer fuel (n / 10) ((48 + n % 10) ∷ later)))
]

pub decimal_nonempty : (n : ℕ) → 0 < length (decimal n)
unfolding decimal decimal_loop
decimal_nonempty n = elim (Bool-cases (ltb n 10)) [
  | inl one ↦ rw one (omega arith)
  | inr more ↦ rw more (omega (arith, loop_longer n (n / 10) ((48 + n % 10) ∷ [])))
]
