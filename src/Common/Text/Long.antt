-- ===== src/Common/Text/Long.antt =====
-- `strtol`, `atoi` and `strtok` of the C library.
use lib_ftn.Common.{ℕ, ◌-◌, ◌%◌, ◌^◌, ◌<◌, min, arith, ◌≡◌, refl, Bool, true, false}
use lib_ftn.Common.{Option, none, some, List, [], ◌∷◌, ◌++◌, ◌==◌, if◌then◌else◌, All}
use lib_ftn.Common.Text.{is_digit, is_space, skip_space, read_digits, decimal}
use lib_ftn.Common.Text.Decimal.{StopsDigits, StartsDigit, read_decimal, decimal-StartsDigit}
use mathlib.Core.List.{append-nil}

-- A `long` of 64 bits in two's complement; a value out of range is cut to the nearest one.
abbrev pub long_word : Bool → ℕ → ℕ
long_word negative v = if negative then (2 ^ 64 - min v (2 ^ 63)) % 2 ^ 64 else min v (2 ^ 63 - 1)

long_digits : Bool → List ℕ → ℕ
long_digits negative s = long_word negative (read_digits 0 s).0

signed_long : List ℕ → ℕ
signed_long [] = 0
signed_long (c ∷ s) =
    if c == b'-'
    then long_digits true s
    else if c == b'+'
    then long_digits false s
    else long_digits false (c ∷ s)

-- The value of `strtol(s, NULL, 10)`, as a word of 64 bits.
unfoldable pub strtol : List ℕ → ℕ
unfolding signed_long long_digits
strtol s = signed_long (skip_space s)

-- `atoi(s)`, as an `unsigned int`.
unfoldable pub atoi : List ℕ → ℕ
atoi s = strtol s % 2 ^ 32

signed_long_lem :
    (s : List ℕ) → StartsDigit s → signed_long s ≡ min (read_digits 0 s).0 (2 ^ 63 - 1)
unfolding signed_long long_digits
signed_long_lem [] h = absurd h
signed_long_lem (c ∷ s) h =
    let minus : (c == b'-') ≡ false = ground arith in
    let plus : (c == b'+') ≡ false = ground arith in rw (minus, plus)

skip_space-StartsDigit : (s : List ℕ) → StartsDigit s → skip_space s ≡ s
unfolding skip_space
skip_space-StartsDigit [] h = absurd h
skip_space-StartsDigit (c ∷ s) h = let solid : is_space c ≡ false = ground arith in rw solid

pub strtol-decimal :
    (n : ℕ) (rest : List ℕ) → n < 2 ^ 63 → StopsDigits rest → strtol (decimal n ++ rest) ≡ n
unfolding strtol
strtol-decimal n rest h stops =
    let starts = decimal-StartsDigit n rest in
    rw
      (
        skip_space-StartsDigit (decimal n ++ rest) starts,
        signed_long_lem (decimal n ++ rest) starts,
        read_decimal n rest stops,
      )
      (omega arith)

pub atoi-decimal :
    (n : ℕ) (rest : List ℕ) → n < 2 ^ 32 → StopsDigits rest → atoi (decimal n ++ rest) ≡ n
unfolding atoi
atoi-decimal n rest h stops = rw (strtol-decimal n rest (omega arith) stops) (omega arith)

-- The characters before the next delimiter, and those from behind it.
unfoldable pub break_at : ℕ → List ℕ → List ℕ × List ℕ
break_at x [] = ([], [])
break_at x (c ∷ s) = let later = break_at x s in if c == x then ([], s) else (c ∷ later.0, later.1)

-- `strtok` with one delimiter: the token and what the next call goes on with.
unfoldable pub strtok : ℕ → List ℕ → Option (List ℕ × List ℕ)
unfolding break_at
strtok x [] = none
strtok x (c ∷ s) = let later = strtok x s in if c == x then later else some (break_at x (c ∷ s))

pub break_at-word :
    (x : ℕ) (word rest : List ℕ)
    → All (λ c. (c == x) ≡ false) word
    → break_at x (word ++ (x ∷ rest)) ≡ (word, rest)
unfolding break_at
break_at-word x [] rest h = let same : (x == x) ≡ true = ground arith in rw same
break_at-word x (c ∷ word) rest (p, h) = rw (p, break_at-word x word rest h)

pub break_at-last :
    (x : ℕ) (word : List ℕ) → All (λ c. (c == x) ≡ false) word → break_at x word ≡ (word, [])
unfolding break_at
break_at-last x [] h = refl
break_at-last x (c ∷ word) (p, h) = rw (p, break_at-last x word h)

-- The text begins with a digit, and the delimiter is none.
pub strtok-StartsDigit :
    (x : ℕ) (s : List ℕ) → is_digit x ≡ false → StartsDigit s → strtok x s ≡ some (break_at x s)
unfolding strtok
strtok-StartsDigit x [] h k = absurd k
strtok-StartsDigit x (c ∷ s) h k = let other : (c == x) ≡ false = differ (c == x) refl in rw other
  where
    differ : (b : Bool) → (c == x) ≡ b → b ≡ false
    differ true e = absurd (ground arith)
    differ false e = refl

-- A delimiter that is no digit does not stand in a number.
pub digits_differ :
    (x : ℕ) (s : List ℕ)
    → is_digit x ≡ false
    → All (λ c. is_digit c ≡ true) s
    → All (λ c. (c == x) ≡ false) s
digits_differ x [] h k = tt
digits_differ x (c ∷ s) h (p, k) = (differ (c == x) refl, digits_differ x s h k)
  where
    differ : (b : Bool) → (c == x) ≡ b → b ≡ false
    differ true e = absurd (ground arith)
    differ false e = refl

pub atoi_whole : (n : ℕ) → n < 2 ^ 32 → atoi (decimal n) ≡ n
atoi_whole n h = rw (append-nil (decimal n)) at (atoi-decimal n [] h tt)

pub strtol_whole : (n : ℕ) → n < 2 ^ 63 → strtol (decimal n) ≡ n
strtol_whole n h = rw (append-nil (decimal n)) at (strtol-decimal n [] h tt)
