-- ===== src/Binkp/Command/Escape.antt =====
-- `ftn_binkp_escape_filename` and `ftn_binkp_unescape_filename` of src/binkp/commands.c.
use lib_ftn.Common.{ℕ, ◌+◌, ◌-◌, ◌*◌, ◌/◌, ◌%◌, ◌^◌, ◌≤◌, ◌<◌, arith, ◌≡◌, refl, ap, ◌∙◌}
use lib_ftn.Common.{Bool, true, false, not, ◌&&◌, ◌||◌, Option, none, some, List, [], ◌∷◌, ltb, leb}
use lib_ftn.Common.{◌==◌, if◌then◌else◌, All, Bool-cases, ◌⊎◌, inl, inr}
use lib_ftn.Common.Text.{is_print, is_digit, skip_space}

-- The byte goes out as it is.
abbrev pub is_plain : ℕ → Bool
is_plain c = is_print c && not (c == b' ') && not (c == 0x5C)

-- A digit of `%02X`.
unfoldable pub hex_digit : ℕ → ℕ
hex_digit d = if ltb d 10 then 48 + d else 55 + d

-- What is written for one byte: itself, or `\xHH`.
abbrev pub escape_byte : ℕ → List ℕ → List ℕ
escape_byte c later =
    if is_plain c then c ∷ later else 0x5C ∷ b'x' ∷ hex_digit (c / 16) ∷ hex_digit (c % 16) ∷ later

unfoldable pub escape_filename : List ℕ → List ℕ
unfolding hex_digit
escape_filename [] = []
escape_filename (c ∷ name) = escape_byte c (escape_filename name)

-- The value of a hexadecimal digit of either case.
unfoldable pub hex_value : ℕ → Option ℕ
hex_value c =
    if is_digit c
    then some (c - 48)
    else if leb 65 c && leb c 70
    then some (c - 55)
    else if leb 97 c && leb c 102
    then some (c - 87)
    else none

-- One digit that the width still allows.
one_more : ℕ → List ℕ → Option ℕ
one_more v [] = some v
one_more v (c ∷ s) = elim (hex_value c) [ none ↦ some v | some d ↦ some (v * 16 + d) ]

-- `0x` takes up the width with no digit behind it, and is no number.
after_zero : List ℕ → Option ℕ
after_zero [] = some 0
after_zero (c ∷ s) = if (c == b'x') || (c == b'X') then none else one_more 0 (c ∷ s)

signed_digit : Bool → List ℕ → Option ℕ
signed_digit negative [] = none
signed_digit negative (c ∷ s) = elim (hex_value c) [
  | none ↦ none
  | some d ↦ some (if negative then (2 ^ 32 - d) % 2 ^ 32 else d)
]

hex_item : List ℕ → Option ℕ
hex_item [] = none
hex_item (c ∷ s) =
    if c == b'-'
    then signed_digit true s
    else if c == b'+'
    then signed_digit false s
    else if c == b'0'
    then after_zero s
    else elim (hex_value c) [ none ↦ none | some d ↦ one_more d s ]

-- `sscanf(s, "%2X", &value)`: white space, then at most two characters of a number.
unfoldable pub scan_hex : List ℕ → Option ℕ
unfolding skip_space hex_item one_more after_zero signed_digit hex_value
scan_hex s = hex_item (skip_space s)

-- `ftn_binkp_unescape_filename`. The test `i + 3 < len` asks for three characters behind the
-- backslash; where the scan succeeds, four are passed over.
unfoldable pub unescape_filename : List ℕ → List ℕ
unfolding scan_hex
unescape_filename [] = []
unescape_filename (c0 ∷ []) = c0 ∷ []
unescape_filename (c0 ∷ c1 ∷ []) = c0 ∷ unescape_filename (c1 ∷ [])
unescape_filename (c0 ∷ c1 ∷ c2 ∷ []) = c0 ∷ unescape_filename (c1 ∷ c2 ∷ [])
unescape_filename (c0 ∷ c1 ∷ c2 ∷ c3 ∷ s) =
    let one = c0 ∷ unescape_filename (c1 ∷ c2 ∷ c3 ∷ s) in
    let four = unescape_filename s in
    if (c0 == 0x5C) && (c1 == b'x')
    then elim (scan_hex (c2 ∷ c3 ∷ s)) [ none ↦ one | some v ↦ (v % 256) ∷ four ]
    else one

hex_value-hex_digit : (d : ℕ) → d < 16 → hex_value (hex_digit d) ≡ some d
unfolding hex_value hex_digit
hex_value-hex_digit d h = ground arith

hex_digit_range :
    (d : ℕ)
    → d < 16
    → ((48 ≤ hex_digit d) × (hex_digit d ≤ 57)) ⊎ ((65 ≤ hex_digit d) × (hex_digit d ≤ 70))
unfolding hex_digit
hex_digit_range d h = ground arith

hex_digit-zero : (d : ℕ) → d < 16 → hex_digit d ≡ 48 → d ≡ 0
unfolding hex_digit
hex_digit-zero d h e = ground arith

one_more_digit : (v d : ℕ) (s : List ℕ) → d < 16 → one_more v (hex_digit d ∷ s) ≡ some (v * 16 + d)
unfolding one_more
one_more_digit v d s h = rw (hex_value-hex_digit d h, one_more)

after_zero_digit : (d : ℕ) (s : List ℕ) → d < 16 → after_zero (hex_digit d ∷ s) ≡ some d
unfolding after_zero
after_zero_digit d s h = ground (arith, hex_digit_range d h, one_more_digit 0 d s h)

hex_item_digits :
    (a b : ℕ) (s : List ℕ)
    → a < 16
    → b < 16
    → hex_item (hex_digit a ∷ hex_digit b ∷ s) ≡ some (a * 16 + b)
unfolding hex_item
hex_item_digits a b s ha hb = ground (
  arith,
  hex_digit_range a ha,
  hex_digit-zero a ha,
  after_zero_digit b s hb,
  hex_value-hex_digit a ha,
  one_more_digit a b s hb,
)

skip_space_digit : (a : ℕ) (s : List ℕ) → a < 16 → skip_space (hex_digit a ∷ s) ≡ hex_digit a ∷ s
unfolding skip_space
skip_space_digit a s ha = ground (arith, hex_digit_range a ha)

-- The scan reads the two digits that the escape wrote.
scan_hex_lem : (s : List ℕ) → scan_hex s ≡ hex_item (skip_space s)
unfolding scan_hex
scan_hex_lem s = refl

scan_hex_digits :
    (a b : ℕ) (s : List ℕ)
    → a < 16
    → b < 16
    → scan_hex (hex_digit a ∷ hex_digit b ∷ s) ≡ some (a * 16 + b)
scan_hex_digits a b s ha hb =
    scan_hex_lem (hex_digit a ∷ hex_digit b ∷ s)
    ∙ ap hex_item (skip_space_digit a (hex_digit b ∷ s) ha)
    ∙ hex_item_digits a b s ha hb

unescape_plain :
    (c : ℕ) (later : List ℕ)
    → (c == 0x5C) ≡ false
    → unescape_filename (c ∷ later) ≡ c ∷ unescape_filename later
unfolding unescape_filename
unescape_plain c [] h = refl
unescape_plain c (a ∷ []) h = refl
unescape_plain c (a ∷ b ∷ []) h = refl
unescape_plain c (a ∷ b ∷ d ∷ s) h = rw h

unescape_hex :
    (c : ℕ) (later : List ℕ)
    → c < 256
    → unescape_filename (0x5C ∷ b'x' ∷ hex_digit (c / 16) ∷ hex_digit (c % 16) ∷ later)
      ≡ c ∷ unescape_filename later
unfolding unescape_filename
unescape_hex c later h =
    let scanned = scan_hex_digits (c / 16) (c % 16) later (omega arith) (omega arith) in
    let value : (c / 16 * 16 + c % 16) % 256 ≡ c = omega arith in rw scanned (rw value)

unescape-escape_byte :
    (c : ℕ) (later : List ℕ)
    → c < 256
    → unescape_filename (escape_byte c later) ≡ c ∷ unescape_filename later
unescape-escape_byte c later h = elim (Bool-cases (is_plain c)) [
  | inl plain ↦ rw plain (unescape_plain c later (ground arith))
  | inr special ↦ rw special (unescape_hex c later h)
]

-- Unescaping an escaped name gives the name back, for a name of any bytes.
pub unescape_filename-escape_filename :
    (name : List ℕ) → All (λ c. c < 256) name → unescape_filename (escape_filename name) ≡ name
unfolding escape_filename
unescape_filename-escape_filename [] h = unfold unescape_filename in refl
unescape_filename-escape_filename (c ∷ name) h =
    unescape-escape_byte c (escape_filename name) h.0
    ∙ ap (λ t. c ∷ t) (unescape_filename-escape_filename name h.1)

-- A graphic character of ASCII.
abbrev pub IsGraphic : ℕ → Type 0
IsGraphic c = (33 ≤ c) × (c ≤ 126)

hex_digit-IsGraphic : (d : ℕ) → d < 16 → IsGraphic (hex_digit d)
unfolding hex_digit
hex_digit-IsGraphic d h = ground arith

-- An escaped name is one word of graphic characters: no space ends it early in a list of arguments.
pub escape_filename-IsGraphic :
    (name : List ℕ) → All (λ c. c < 256) name → All IsGraphic (escape_filename name)
unfolding escape_filename
escape_filename-IsGraphic [] h = tt
escape_filename-IsGraphic (c ∷ name) h = elim (Bool-cases (is_plain c)) [
  | inl plain ↦ rw plain (ground arith, escape_filename-IsGraphic name h.1)
  | inr special ↦ rw special (
    omega arith,
    (
      omega arith,
      (
        hex_digit-IsGraphic (c / 16) (omega (arith, h.0)),
        (hex_digit-IsGraphic (c % 16) (omega arith), escape_filename-IsGraphic name h.1),
      ),
    ),
  )
]
