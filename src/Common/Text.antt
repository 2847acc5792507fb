-- ===== src/Common/Text.antt =====
-- What the program uses of <ctype.h>, <stdlib.h>, <string.h> and <stdio.h>, in the C locale, over
-- lists of bytes. A C string is a list without the closing 0.
pub mod Decimal
pub mod Words
pub mod Long
use lib_ftn.Common.{ℕ, zero, suc, ◌+◌, ◌-◌, ◌*◌, ◌/◌, ◌%◌, ◌^◌, Bool, true, false, ◌&&◌, ◌||◌, not}
use lib_ftn.Common.{Option, none, some, List, [], ◌∷◌, ◌++◌, ltb, leb, ◌==◌, if◌then◌else◌, take}

abbrev pub is_space : ℕ → Bool
is_space c = (c == 32) || (leb 9 c && leb c 13)

abbrev pub is_digit : ℕ → Bool
is_digit c = leb 48 c && leb c 57

abbrev pub is_print : ℕ → Bool
is_print c = leb 32 c && leb c 126

-- The bytes before the first 0: what a buffer is as a C string.
unfoldable pub c_string : List ℕ → List ℕ
c_string [] = []
c_string (c ∷ s) = if c == 0 then [] else c ∷ c_string s

-- `strchr(s, c)`: the bytes before the first `c`, and those from behind it.
unfoldable pub split_at_char : ℕ → List ℕ → Option (List ℕ × List ℕ)
split_at_char c [] = none
split_at_char c (x ∷ s) =
    let later = split_at_char c s in
    if x == c
    then some ([], s)
    else elim later [ none ↦ none | some (front, back) ↦ some (x ∷ front, back) ]

unfoldable pub skip_space : List ℕ → List ℕ
skip_space [] = []
skip_space (c ∷ s) = if is_space c then skip_space s else c ∷ s

-- The decimal digits in front, on top of the value so far, and what follows them.
unfoldable pub read_digits : ℕ → List ℕ → ℕ × List ℕ
read_digits value [] = (value, [])
read_digits value (c ∷ s) =
    let later = read_digits (value * 10 + (c - 48)) s in
    if is_digit c then later else (value, c ∷ s)

abbrev pub ulong_max : ℕ
ulong_max = 2 ^ 64 - 1

-- An `unsigned long` of 64 bits: too large a value is cut to the largest one, and a minus sign
-- negates in that type.
abbrev pub ulong_value : Bool → ℕ → ℕ
ulong_value negative v =
    if ltb ulong_max v then ulong_max else if negative then (2 ^ 64 - v) % 2 ^ 64 else v

-- Behind the sign: the value and the end, or the whole text where no digit stands.
unsigned_digits : Bool → List ℕ → List ℕ → ℕ × List ℕ
unsigned_digits negative whole [] = (0, whole)
unsigned_digits negative whole (c ∷ s) =
    let (v, end) = read_digits 0 (c ∷ s) in
    if is_digit c then (ulong_value negative v, end) else (0, whole)

signed_digits : List ℕ → List ℕ → ℕ × List ℕ
signed_digits whole [] = (0, whole)
signed_digits whole (c ∷ s) =
    if c == b'-'
    then unsigned_digits true whole s
    else if c == b'+'
    then unsigned_digits false whole s
    else unsigned_digits false whole (c ∷ s)

-- `strtoul(s, &end, 10)`: the value, and `end`.
unfoldable pub strtoul : List ℕ → ℕ × List ℕ
unfolding skip_space signed_digits unsigned_digits read_digits
strtoul s = signed_digits s (skip_space s)

-- `%lu` and `%u`, the digits in front of `later`. `fuel` bounds the number of digits.
unfoldable pub decimal_loop : ℕ → ℕ → List ℕ → List ℕ
decimal_loop zero n later = later
decimal_loop (suc fuel) n later =
    let more = decimal_loop fuel (n / 10) ((48 + n % 10) ∷ later) in
    if ltb n 10 then (48 + n) ∷ later else more

-- A number has no more digits than it is large, but for 0.
unfoldable pub decimal : ℕ → List ℕ
unfolding decimal_loop
decimal n = decimal_loop (suc n) n []

-- `snprintf` into a buffer of `size` bytes keeps what fits before the closing 0.
abbrev pub printed : ℕ → List ℕ → List ℕ
printed size text = take (size - 1) text
