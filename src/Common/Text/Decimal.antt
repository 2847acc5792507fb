-- ===== src/Common/Text/Decimal.antt =====
-- Printing a number and reading it back.
use lib_ftn.Common.{All, ℕ, zero, suc, ◌+◌, ◌-◌, ◌*◌, ◌/◌, ◌%◌, ◌≤◌, ◌<◌, arith, ◌≡◌, refl, ap, ◌∙◌}
use lib_ftn.Common.{true, false, List, [], ◌∷◌, ◌++◌, ltb, ◌==◌, if◌then◌else◌}
use lib_ftn.Common.{Bool-cases, inl, inr, ltb→lt}
use lib_ftn.Common.Text.{
  is_digit, is_space, read_digits, skip_space, signed_digits, unsigned_digits,
}
use lib_ftn.Common.Text.{strtoul, decimal_loop, decimal, ulong_max, ulong_value}

-- The text goes on with something that is no digit, or ends.
abbrev pub StopsDigits : List ℕ → Type 0
StopsDigits [] = Unit
StopsDigits (c ∷ s) = is_digit c ≡ false

-- `read_digits` over the digits of `n` multiplies the value so far by the power of ten that they
-- span; stated for the loop that prints them, with what is already printed.
read_stops : (v : ℕ) (rest : List ℕ) → StopsDigits rest → read_digits v rest ≡ (v, rest)
unfolding read_digits
read_stops v [] h = refl
read_stops v (c ∷ s) h = rw h

read_digit :
    (d v : ℕ) (s : List ℕ) → d < 10 → read_digits v ((48 + d) ∷ s) ≡ read_digits (v * 10 + d) s
unfolding read_digits
read_digit d v s h =
    let digit : is_digit (48 + d) ≡ true = ground arith in
    let back : 48 + d - 48 ≡ d = omega arith in rw (digit, back)

ge_of_ltb : (a b : ℕ) → ltb a b ≡ false → b ≤ a
ge_of_ltb a b h = ground arith

-- The power of ten above the digits of a number.
abbrev scale : ℕ → ℕ → ℕ
scale zero n = 1
scale (suc fuel) n = let more = 10 * scale fuel (n / 10) in if ltb n 10 then 10 else more

loop_one :
    (fuel n : ℕ) (later : List ℕ)
    → ltb n 10 ≡ true
    → decimal_loop (suc fuel) n later ≡ (48 + n) ∷ later
unfolding decimal_loop
loop_one fuel n later h = rw h

loop_more :
    (fuel n : ℕ) (later : List ℕ)
    → ltb n 10 ≡ false
    → decimal_loop (suc fuel) n later ≡ decimal_loop fuel (n / 10) ((48 + n % 10) ∷ later)
unfolding decimal_loop
loop_more fuel n later h = rw h

scale_one : (fuel n : ℕ) → ltb n 10 ≡ true → scale (suc fuel) n ≡ 10
scale_one fuel n h = rw h

scale_more : (fuel n : ℕ) → ltb n 10 ≡ false → scale (suc fuel) n ≡ 10 * scale fuel (n / 10)
scale_more fuel n h = rw h

read_loop :
    (fuel n v : ℕ) (later rest : List ℕ)
    → n < fuel
    → read_digits v (decimal_loop fuel n later ++ rest)
      ≡ read_digits (v * scale fuel n + n) (later ++ rest)
read_loop zero n v later rest h = absurd (omega arith)
read_loop (suc fuel) n v later rest h = elim (Bool-cases (ltb n 10)) [
  | inl one ↦
      rw (loop_one fuel n later one, scale_one fuel n one)
        (read_digit n v (later ++ rest) (ltb→lt n 10 one))
  | inr more ↦
      let value : (v * scale fuel (n / 10) + n / 10) * 10 + n % 10
          ≡ v * (10 * scale fuel (n / 10)) + n =
        omega arith in
      let d : n % 10 < 10 = omega arith in
      rw (loop_more fuel n later more, scale_more fuel n more, ← value)
        (read_loop fuel (n / 10) v ((48 + n % 10) ∷ later) rest (omega (arith, ge_of_ltb n 10 more))
          ∙ read_digit (n % 10) (v * scale fuel (n / 10) + n / 10) (later ++ rest) d)
]

pub read_decimal :
    (n : ℕ) (rest : List ℕ) → StopsDigits rest → read_digits 0 (decimal n ++ rest) ≡ (n, rest)
unfolding decimal
read_decimal n rest h =
    read_loop (suc n) n 0 [] rest (omega arith)
    ∙ ap (λ (t : ℕ). read_digits t rest) value
    ∙ read_stops n rest h
  where
    value : 0 * scale (suc n) n + n ≡ n
    value = omega arith

-- The digits begin with a digit.
abbrev pub StartsDigit : List ℕ → Type 0
StartsDigit [] = ⊥
StartsDigit (c ∷ s) = is_digit c ≡ true

loop_starts : (fuel n : ℕ) (later : List ℕ) → n < fuel → StartsDigit (decimal_loop fuel n later)
unfolding decimal_loop
loop_starts zero n later h = absurd (omega arith)
loop_starts (suc fuel) n later h = elim (Bool-cases (ltb n 10)) [
  | inl one ↦ rw one (let d : n < 10 = ltb→lt n 10 one in ground arith)
  | inr more ↦
      rw more
        (loop_starts fuel (n / 10) ((48 + n % 10) ∷ later) (omega (arith, ge_of_ltb n 10 more)))
]

unsigned_digits_lem :
    (c : ℕ) (s whole : List ℕ) {v : ℕ} {rest : List ℕ}
    → is_digit c ≡ true
    → read_digits 0 (c ∷ s) ≡ (v, rest)
    → unsigned_digits false whole (c ∷ s) ≡ (ulong_value false v, rest)
unfolding unsigned_digits
unsigned_digits_lem c s whole h e = rw (h, e)

signed_digits_lem :
    (c : ℕ) (s whole : List ℕ)
    → is_digit c ≡ true
    → signed_digits whole (c ∷ s) ≡ unsigned_digits false whole (c ∷ s)
unfolding signed_digits
signed_digits_lem c s whole h =
    let no_minus : (c == b'-') ≡ false = ground arith in
    let no_plus : (c == b'+') ≡ false = ground arith in rw (no_minus, no_plus)

skip_space_digit : (c : ℕ) (s : List ℕ) → is_digit c ≡ true → skip_space (c ∷ s) ≡ c ∷ s
unfolding skip_space
skip_space_digit c s h = let no_space : is_space c ≡ false = ground arith in rw no_space

strtoul_lem : (s : List ℕ) → strtoul s ≡ signed_digits s (skip_space s)
unfolding strtoul
strtoul_lem s = refl

strtoul_digits :
    (s : List ℕ) {v : ℕ} {rest : List ℕ}
    → StartsDigit s
    → read_digits 0 s ≡ (v, rest)
    → strtoul s ≡ (ulong_value false v, rest)
strtoul_digits [] h e = absurd h
strtoul_digits (c ∷ s) h e =
    strtoul_lem (c ∷ s)
    ∙ ap (signed_digits (c ∷ s)) (skip_space_digit c s h)
    ∙ signed_digits_lem c s (c ∷ s) h
    ∙ unsigned_digits_lem c s (c ∷ s) h e

StartsDigit-append : (s t : List ℕ) → StartsDigit s → StartsDigit (s ++ t)
StartsDigit-append [] t h = absurd h
StartsDigit-append (c ∷ s) t h = h

-- `strtoul` reads back a number that `%lu` printed, and stops behind it.
pub strtoul-decimal :
    (n : ℕ) (rest : List ℕ)
    → n ≤ ulong_max
    → StopsDigits rest
    → strtoul (decimal n ++ rest) ≡ (n, rest)
strtoul-decimal n rest h stops =
    strtoul_digits (decimal n ++ rest)
      (StartsDigit-append (decimal n) rest
        (unfold decimal in loop_starts (suc n) n [] (omega arith)))
      (read_decimal n rest stops)
    ∙ ap (λ (t : ℕ). (t, rest)) in_range
  where
    in_range : ulong_value false n ≡ n
    in_range = ground arith

pub decimal-StartsDigit : (n : ℕ) (rest : List ℕ) → StartsDigit (decimal n ++ rest)
decimal-StartsDigit n rest =
    StartsDigit-append (decimal n) rest (unfold decimal in loop_starts (suc n) n [] (omega arith))

loop_digits :
    (fuel n : ℕ) (later : List ℕ)
    → All (λ c. is_digit c ≡ true) later
    → All (λ c. is_digit c ≡ true) (decimal_loop fuel n later)
unfolding decimal_loop
loop_digits zero n later h = h
loop_digits (suc fuel) n later h = elim (Bool-cases (ltb n 10)) [
  | inl one ↦ rw one (let d : n < 10 = ltb→lt n 10 one in ground arith, h)
  | inr more ↦ rw more (
      loop_digits fuel (n / 10) ((48 + n % 10) ∷ later)
        (let d : n % 10 < 10 = omega arith in ground arith, h))
]

pub decimal-digits : (n : ℕ) → All (λ c. is_digit c ≡ true) (decimal n)
unfolding decimal
decimal-digits n = loop_digits (suc n) n [] tt
