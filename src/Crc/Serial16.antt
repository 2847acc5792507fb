-- ===== src/Crc/Serial16.antt =====
-- The bit-serial CRC-16, for the table-driven one of src/crc.c.
use lib_ftn.Common.{ℕ, zero, suc, ◌+◌, ◌*◌, ◌/◌, ◌%◌, ◌^◌, ◌<◌, bit_and, bit_xor, arith}
use lib_ftn.Common.{◌≡◌, refl, sym, ap, ◌∙◌, List, [], ◌∷◌, All, ◌==◌, if◌then◌else◌, get_or}
use lib_ftn.Common.Bits.{bit_and_mask, bit_and_bit, bit_xor_step}
use lib_ftn.Common.Xor.{bit_xor_assoc, bit_xor_comm, bit_xor-zero, bit_xor_interchange}
use lib_ftn.Common.Xor.{bit_xor-parity, bit_xor-div, bit_xor_disjoint, bit_xor-lt, bit_xor-mod}
use lib_ftn.Common.Xor.{bit_xor_fields, two_pow_pos}
use native.Mathlib.Nat.{pow-suc, mod-lt, div-add-mod', zero-add, add-zero, mod-eq_of_lt}
use lib_ftn.Crc.Table.{tabulate, get_or-tabulate}
use lib_ftn.Crc.Crc16.{
  crc16_round, crc16_rounds, crc16_entry, crc16_table, crc16_step, crc16_loop, crc16,
}

poly_if : ℕ → ℕ
poly_if zero = 0
poly_if (suc b) = 0x1021

-- A round of the loop as far as its low sixteen digits go.
turn : ℕ → ℕ
turn c = bit_xor (c * 2 % 2 ^ 16) (poly_if (c / 2 ^ 15 % 2))

turns : ℕ → ℕ → ℕ
turns zero c = c
turns (suc k) c = turns k (turn c)

double_cut : (c : ℕ) → c * 2 % 2 ^ 32 % 2 ^ 16 ≡ c * 2 % 2 ^ 16
double_cut c = omega arith

round_turn : (c : ℕ) → crc16_round c % 2 ^ 16 ≡ turn c
unfolding crc16_round turn poly_if
round_turn c = rw (bit_and_bit 15 c) (by_digit (c / 2 ^ 15 % 2))
  where
    by_digit :
        (d : ℕ)
        → (if d * 2 ^ 15 == 0 then c * 2 % 2 ^ 32 else bit_xor (c * 2 % 2 ^ 32) 0x1021) % 2 ^ 16
          ≡ bit_xor (c * 2 % 2 ^ 16) (poly_if d)
    by_digit zero = double_cut c ∙ sym (bit_xor-zero (c * 2 % 2 ^ 16))
    by_digit (suc d) = ground (
      arith,
      bit_xor-mod 16 (c * 2 % 2 ^ 32) 0x1021,
      ap (λ (t : ℕ). bit_xor t 0x1021) (double_cut c),
    )

turn_cut : (c : ℕ) → turn (c % 2 ^ 16) ≡ turn c
unfolding turn
turn_cut c =
    let low : c % 2 ^ 16 * 2 % 2 ^ 16 ≡ c * 2 % 2 ^ 16 = omega arith in
    let top : c % 2 ^ 16 / 2 ^ 15 % 2 ≡ c / 2 ^ 15 % 2 = omega arith in rw (low, top)

rounds_turns : (k c : ℕ) → crc16_rounds k c % 2 ^ 16 ≡ turns k (c % 2 ^ 16) % 2 ^ 16
unfolding crc16_rounds turns
rounds_turns zero c = omega arith
rounds_turns (suc k) c =
    rounds_turns k (crc16_round c)
    ∙ ap (λ (t : ℕ). turns k t % 2 ^ 16) (round_turn c ∙ sym (turn_cut c))

poly_if_add : (a b : ℕ) → poly_if ((a + b) % 2) ≡ bit_xor (poly_if (a % 2)) (poly_if (b % 2))
unfolding poly_if
poly_if_add a b = go (a % 2) (b % 2) ((a + b) % 2) (omega arith) (omega arith) (omega arith)
  where
    go : (x y z : ℕ) → x < 2 → y < 2 → (x + y) % 2 ≡ z → poly_if z ≡ bit_xor (poly_if x) (poly_if y)
    go zero zero zero p q e = refl
    go zero zero (suc z) p q e = absurd (omega arith)
    go zero (suc y) zero p q e = absurd (omega arith)
    go zero (suc y) (suc z) p q e = refl
    go (suc x) zero zero p q e = absurd (omega arith)
    go (suc x) zero (suc z) p q e = refl
    go (suc x) (suc y) zero p q e = refl
    go (suc x) (suc y) (suc z) p q e = absurd (omega arith)

double_xor : (a b : ℕ) → bit_xor a b * 2 ≡ bit_xor (a * 2) (b * 2)
double_xor a b = ground (arith, bit_xor_step (a * 2) (b * 2))

turn_linear : (a b : ℕ) → turn (bit_xor a b) ≡ bit_xor (turn a) (turn b)
unfolding turn
turn_linear a b = cc (
  double_xor a b,
  bit_xor-mod 16 (a * 2) (b * 2),
  bit_xor-div 15 a b,
  bit_xor-parity (a / 2 ^ 15) (b / 2 ^ 15),
  poly_if_add (a / 2 ^ 15) (b / 2 ^ 15),
  bit_xor_interchange (a * 2 % 2 ^ 16) (b * 2 % 2 ^ 16) (poly_if (a / 2 ^ 15 % 2))
      (poly_if (b / 2 ^ 15 % 2)),
)

turns_linear : (k a b : ℕ) → turns k (bit_xor a b) ≡ bit_xor (turns k a) (turns k b)
unfolding turns
turns_linear zero a b = refl
turns_linear (suc k) a b = ap (turns k) (turn_linear a b) ∙ turns_linear k (turn a) (turn b)

turn_small : (c : ℕ) → c < 2 ^ 15 → turn c ≡ c * 2
unfolding turn
turn_small c h =
    let top : c / 2 ^ 15 % 2 ≡ 0 = omega arith in
    let fits : c * 2 % 2 ^ 16 ≡ c * 2 = omega arith in
    unfold poly_if in rw (top, fits) (bit_xor-zero (c * 2))

turns_small : (k c : ℕ) → c * 2 ^ k < 2 ^ 16 → turns k c ≡ c * 2 ^ k
unfolding turns
turns_small zero c h = omega arith
turns_small (suc k) c h =
    let e : c * 2 * 2 ^ k ≡ c * 2 ^ suc k = grind (arith, pow-suc 2 k) in
    let small : c < 2 ^ 15 = grind (arith, two_pow_pos k) in
    rw (turn_small c small) (turns_small k (c * 2) (rw e h) ∙ e)

turn-lt : (c : ℕ) → turn c < 2 ^ 16
unfolding turn
turn-lt c =
    bit_xor-lt 16 (c * 2 % 2 ^ 16) (poly_if (c / 2 ^ 15 % 2)) (omega arith) (small (c / 2 ^ 15 % 2))
  where
    small : (d : ℕ) → poly_if d < 2 ^ 16
    small zero = unfold poly_if in omega arith
    small (suc d) = unfold poly_if in omega arith

turns-lt : (k c : ℕ) → c < 2 ^ 16 → turns k c < 2 ^ 16
unfolding turns
turns-lt zero c h = h
turns-lt (suc k) c h = turns-lt k (turn c) (turn-lt c)

-- The definition of the CRC, one digit of the message at a time, highest first: the register
-- moves up by one place and takes in the polynomial x^16 + x^12 + x^5 + 1 if the digit that
-- leaves it differs from the message's. `word` holds the digits to come at its upper end.
pub feed_digit : ℕ → ℕ → ℕ
feed_digit crc d =
    let up = crc * 2 % 2 ^ 16 in if (crc / 2 ^ 15 + d) % 2 == 0 then up else bit_xor up 0x1021

pub feed_digits : ℕ → ℕ → ℕ → ℕ
feed_digits zero crc word = crc
feed_digits (suc k) crc word = feed_digits k (feed_digit crc (word / 2 ^ 15)) (word * 2 % 2 ^ 16)

pub serial_crc16 : ℕ → List ℕ → ℕ
serial_crc16 crc [] = crc
serial_crc16 crc (byte ∷ rest) = serial_crc16 (feed_digits 8 crc (byte * 2 ^ 8)) rest

-- What is left of the word after `k` digits.
left_of : ℕ → ℕ → ℕ
left_of zero word = word
left_of (suc k) word = left_of k (word * 2 % 2 ^ 16)

feed_digit-turn : (crc d : ℕ) → d < 2 → feed_digit crc d ≡ turn (bit_xor crc (d * 2 ^ 15))
unfolding feed_digit turn poly_if
feed_digit-turn crc d h =
    let top : d * 2 ^ 15 / 2 ^ 15 ≡ d = omega arith in
    let out : d * 2 ^ 15 * 2 % 2 ^ 16 ≡ 0 = omega arith in
    let low : bit_xor crc (d * 2 ^ 15) * 2 % 2 ^ 16 ≡ crc * 2 % 2 ^ 16 = cc (
      double_xor crc (d * 2 ^ 15),
      bit_xor-mod 16 (crc * 2) (d * 2 ^ 15 * 2),
      out,
      bit_xor-zero (crc * 2 % 2 ^ 16),
    ) in
    rw (low, bit_xor-div 15 crc (d * 2 ^ 15), top, bit_xor-parity (crc / 2 ^ 15) d)
      (by_digit ((crc / 2 ^ 15 + d) % 2))
  where
    by_digit :
        (e : ℕ)
        → (if e == 0 then crc * 2 % 2 ^ 16 else bit_xor (crc * 2 % 2 ^ 16) 0x1021)
          ≡ bit_xor (crc * 2 % 2 ^ 16) (poly_if e)
    by_digit zero = sym (bit_xor-zero (crc * 2 % 2 ^ 16))
    by_digit (suc e) = ground arith

take_digit :
    (crc word : ℕ)
    → turn (bit_xor crc word)
      ≡ bit_xor (turn (bit_xor crc (word / 2 ^ 15 * 2 ^ 15))) (word % 2 ^ 15 * 2)
take_digit crc word = cc (
  bit_xor_disjoint 15 (word / 2 ^ 15) (word % 2 ^ 15) (omega arith),
  div-add-mod' word (2 ^ 15),
  bit_xor_assoc crc (word / 2 ^ 15 * 2 ^ 15) (word % 2 ^ 15),
  turn_linear (bit_xor crc (word / 2 ^ 15 * 2 ^ 15)) (word % 2 ^ 15),
  turn_small (word % 2 ^ 15) (omega arith),
)

feed_digits-turns :
    (k crc word : ℕ)
    → word < 2 ^ 16
    → bit_xor (feed_digits k crc word) (left_of k word) ≡ turns k (bit_xor crc word)
unfolding feed_digits left_of turns
feed_digits-turns zero crc word h = refl
feed_digits-turns (suc k) crc word h =
    let rest : word % 2 ^ 15 * 2 ≡ word * 2 % 2 ^ 16 = omega arith in
    feed_digits-turns k (feed_digit crc (word / 2 ^ 15)) (word * 2 % 2 ^ 16) (omega arith)
    ∙ ap (turns k)
        (cc (feed_digit-turn crc (word / 2 ^ 15) (omega arith), take_digit crc word, rest))

all_fed : (byte : ℕ) → byte < 256 → left_of 8 (byte * 2 ^ 8) ≡ 0
unfolding left_of
all_fed byte h = omega arith

entry_turns : (i : ℕ) → i < 256 → crc16_entry i ≡ turns 8 (i * 2 ^ 8)
unfolding crc16_entry
entry_turns i h =
    let fits : i * 2 ^ 8 % 2 ^ 32 ≡ i * 2 ^ 8 = omega arith in
    let small : i * 2 ^ 8 % 2 ^ 16 ≡ i * 2 ^ 8 = omega arith in
    rw fits (
      bit_and_mask 16 (crc16_rounds 8 (i * 2 ^ 8))
      ∙ rounds_turns 8 (i * 2 ^ 8)
      ∙ rw small (mod-eq_of_lt (turns-lt 8 (i * 2 ^ 8) (omega arith))))

-- Both sides of `step_feed` are this one.
step_turns :
    (crc byte : ℕ)
    → crc < 2 ^ 16
    → byte < 256
    → crc16_step crc byte
      ≡ bit_xor (crc % 2 ^ 8 * 2 ^ 8) (turns 8 (bit_xor (crc / 2 ^ 8) byte * 2 ^ 8))
unfolding crc16_step crc16_table
step_turns crc byte hc hb =
    let i = bit_xor (crc / 2 ^ 8) byte in
    let hi : i < 256 = bit_xor-lt 8 (crc / 2 ^ 8) byte (omega arith) hb in
    let index : bit_and i 0xFF ≡ i = bit_and_mask 8 i ∙ mod-eq_of_lt hi in
    let entry : get_or (tabulate crc16_entry 256 0) i 0 ≡ turns 8 (i * 2 ^ 8) =
      get_or-tabulate crc16_entry 256 0 i hi ∙ rw zero-add (entry_turns i hi) in
    let low : crc * 2 ^ 8 % 2 ^ 32 % 2 ^ 16 ≡ crc % 2 ^ 8 * 2 ^ 8 = omega arith in
    let up = crc * 2 ^ 8 % 2 ^ 32 in
    rw (index, entry)
      (bit_and_mask 16 (bit_xor up (turns 8 (i * 2 ^ 8)))
        ∙ bit_xor-mod 16 up (turns 8 (i * 2 ^ 8))
        ∙ rw (low, mod-eq_of_lt (turns-lt 8 (i * 2 ^ 8) (omega arith))))

word_fields :
    (crc byte : ℕ)
    → bit_xor crc (byte * 2 ^ 8) ≡ bit_xor (bit_xor (crc / 2 ^ 8) byte * 2 ^ 8) (crc % 2 ^ 8)
word_fields crc byte = cc (
  div-add-mod' crc (2 ^ 8),
  bit_xor_fields 8 (crc / 2 ^ 8) byte (crc % 2 ^ 8) 0 (omega arith) (omega arith),
  add-zero (byte * 2 ^ 8),
  bit_xor-zero (crc % 2 ^ 8),
  bit_xor_disjoint 8 (bit_xor (crc / 2 ^ 8) byte) (crc % 2 ^ 8) (omega arith),
)

-- A look-up in the table does the eight rounds of a byte at once.
step_feed :
    (crc byte : ℕ)
    → crc < 2 ^ 16
    → byte < 256
    → crc16_step crc byte ≡ feed_digits 8 crc (byte * 2 ^ 8)
step_feed crc byte hc hb =
    let i = bit_xor (crc / 2 ^ 8) byte in
    cc (
      step_turns crc byte hc hb,
      feed_digits-turns 8 crc (byte * 2 ^ 8) (omega arith),
      all_fed byte hb,
      bit_xor-zero (feed_digits 8 crc (byte * 2 ^ 8)),
      word_fields crc byte,
      turns_linear 8 (i * 2 ^ 8) (crc % 2 ^ 8),
      turns_small 8 (crc % 2 ^ 8) (omega arith),
      bit_xor_comm (crc % 2 ^ 8 * 2 ^ 8) (turns 8 (i * 2 ^ 8)),
    )

pub crc16_step-lt : (crc byte : ℕ) → crc16_step crc byte < 2 ^ 16
unfolding crc16_step
crc16_step-lt crc byte = rw (bit_and_mask 16) (mod-lt _ (two_pow_pos 16))

loop_serial :
    (crc : ℕ) (buffer : List ℕ)
    → crc < 2 ^ 16
    → All (λ b. b < 256) buffer
    → crc16_loop crc buffer ≡ serial_crc16 crc buffer
unfolding crc16_loop serial_crc16
loop_serial crc [] hc h = refl
loop_serial crc (b ∷ bs) hc h =
    rw (← step_feed crc b hc h.0) (loop_serial (crc16_step crc b) bs (crc16_step-lt crc b) h.1)

-- On every buffer of bytes, the table-driven `ftn_crc16` is the bit-serial CRC-16 that starts
-- from 0.
pub crc16-serial_crc16 :
    (buffer : List ℕ) → All (λ b. b < 256) buffer → crc16 buffer ≡ serial_crc16 0 buffer
unfolding crc16
crc16-serial_crc16 buffer h = loop_serial 0 buffer (omega arith) h
