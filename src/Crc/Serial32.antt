-- ===== src/Crc/Serial32.antt =====
-- The bit-serial CRC-32, for the table-driven one of src/binkp/crc.c.
use lib_ftn.Common.{ℕ, zero, suc, ◌+◌, ◌*◌, ◌/◌, ◌%◌, ◌^◌, ◌<◌, bit_xor, arith}
use lib_ftn.Common.{
  ◌≡◌, refl, sym, ap, ◌∙◌, List, [], ◌∷◌, ◌++◌, All, Option, none, some, ◌==◌, if◌then◌else◌,
}
use lib_ftn.Common.Bits.{bit_and_mask}
use lib_ftn.Common.Xor.{bit_xor_assoc, bit_xor_comm, bit_xor-zero}
use lib_ftn.Common.Xor.{bit_xor_interchange, double_power, two_pow_pos}
use lib_ftn.Common.Xor.{bit_xor-half, bit_xor-parity, bit_xor-div, bit_xor_disjoint}
use native.Mathlib.Nat.{pow-suc, mod-lt, div-add-mod', zero-add}
use lib_ftn.Crc.Table.{get_or-tabulate}
use lib_ftn.Crc.Crc32.{crc32_polynomial, crc32_round, crc32_rounds, crc32_table, crc32_step}
use lib_ftn.Crc.Crc32.{crc32_update, crc32_calculate, crc32_reads, crc32_file}
use lib_ftn.Binkp.Status.{Status, ok, protocol_error}

-- `crc32_round` without a test: the polynomial comes in as often as the lowest digit says.
poly_if : ℕ → ℕ
poly_if zero = 0
poly_if (suc b) = crc32_polynomial

round_digit : (c : ℕ) → crc32_round c ≡ bit_xor (c / 2) (poly_if (c % 2))
unfolding crc32_round poly_if
round_digit c = rw (bit_and_mask 1 c) (by_digit (c % 2) (omega arith))
  where
    by_digit :
        (d : ℕ)
        → d < 2
        → (if d == 0 then c / 2 else bit_xor (c / 2) crc32_polynomial) ≡ bit_xor (c / 2) (poly_if d)
    by_digit zero h = sym (bit_xor-zero (c / 2))
    by_digit (suc d) h = ground arith

poly_if_add : (a b : ℕ) → poly_if ((a + b) % 2) ≡ bit_xor (poly_if (a % 2)) (poly_if (b % 2))
unfolding poly_if
poly_if_add a b = go (a % 2) (b % 2) ((a + b) % 2) (omega arith) (omega arith) (omega arith)
  where
    go : (x y z : ℕ) → x < 2 → y < 2 → (x + y) % 2 ≡ z → poly_if z ≡ bit_xor (poly_if x) (poly_if y)
    go zero zero zero p q e = refl
    go zero zero (suc z) p q e = absurd (omega arith)
    go zero (suc y) zero p q e = absurd (omega arith)
    go zero (suc y) (suc z) p q e = refl
    go (suc x) zero zero p q e = absurd (omega arith)
    go (suc x) zero (suc z) p q e = refl
    go (suc x) (suc y) zero p q e = refl
    go (suc x) (suc y) (suc z) p q e = absurd (omega arith)

round_linear : (a b : ℕ) → crc32_round (bit_xor a b) ≡ bit_xor (crc32_round a) (crc32_round b)
round_linear a b = cc (
  round_digit (bit_xor a b),
  round_digit a,
  round_digit b,
  bit_xor-half a b,
  bit_xor-parity a b,
  poly_if_add a b,
  bit_xor_interchange (a / 2) (b / 2) (poly_if (a % 2)) (poly_if (b % 2)),
)

rounds_linear :
    (k a b : ℕ) → crc32_rounds k (bit_xor a b) ≡ bit_xor (crc32_rounds k a) (crc32_rounds k b)
unfolding crc32_rounds
rounds_linear zero a b = refl
rounds_linear (suc k) a b =
    ap (crc32_rounds k) (round_linear a b) ∙ rounds_linear k (crc32_round a) (crc32_round b)

-- No digit of a multiple of `2 ^ k` reaches the lowest place within `k` rounds.
rounds_shift : (k q : ℕ) → crc32_rounds k (q * 2 ^ k) ≡ q
unfolding crc32_rounds
rounds_shift zero q = omega arith
rounds_shift (suc k) q = ap (crc32_rounds k) one_round ∙ rounds_shift k q
  where
    one_round : crc32_round (q * 2 ^ suc k) ≡ q * 2 ^ k
    one_round =
        let half : 2 * (q * 2 ^ k) / 2 ≡ q * 2 ^ k = omega arith in
        let even : 2 * (q * 2 ^ k) % 2 ≡ 0 = omega arith in
        unfold poly_if in
        rw (round_digit (q * 2 ^ suc k), double_power q k, half, even) (bit_xor-zero (q * 2 ^ k))

rounds_split : (k x : ℕ) → crc32_rounds k x ≡ bit_xor (x / 2 ^ k) (crc32_rounds k (x % 2 ^ k))
rounds_split k x = cc (
  bit_xor_disjoint k (x / 2 ^ k) (x % 2 ^ k) (mod-lt x (two_pow_pos k)),
  div-add-mod' x (2 ^ k),
  rounds_linear k (x / 2 ^ k * 2 ^ k) (x % 2 ^ k),
  rounds_shift k (x / 2 ^ k),
)

-- A look-up in the table does the eight rounds of a byte at once.
step_rounds : (crc byte : ℕ) → byte < 256 → crc32_step crc byte ≡ crc32_rounds 8 (bit_xor crc byte)
unfolding crc32_step crc32_table
step_rounds crc byte h =
    let x = bit_xor crc byte in
    let none_above : byte / 2 ^ 8 ≡ 0 = omega arith in
    cc (
      bit_and_mask 8 x,
      get_or-tabulate (crc32_rounds 8) 256 0 (x % 2 ^ 8) (omega arith),
      bit_xor-div 8 crc byte,
      none_above,
      bit_xor-zero (crc / 256),
      rounds_split 8 x,
      bit_xor_comm (crc / 256) (crc32_rounds 8 (x % 2 ^ 8)),
      zero-add (x % 2 ^ 8),
    )

-- The definition of a CRC, one digit of the message at a time, lowest first: the register moves
-- down by one place and takes in the polynomial if the digit that leaves it differs from the
-- message's.
pub feed_digit : ℕ → ℕ → ℕ
feed_digit crc d = if (crc + d) % 2 == 0 then crc / 2 else bit_xor (crc / 2) 0xEDB88320

pub feed_digits : ℕ → ℕ → ℕ → ℕ
feed_digits zero crc byte = crc
feed_digits (suc k) crc byte = feed_digits k (feed_digit crc (byte % 2)) (byte / 2)

pub feed : ℕ → List ℕ → ℕ
feed crc [] = crc
feed crc (byte ∷ rest) = feed (feed_digits 8 crc byte) rest

-- The CRC-32 of IEEE 802.3: the register starts with all ones, and is inverted at the end.
pub serial_crc32 : List ℕ → ℕ
serial_crc32 message = bit_xor (feed 0xFFFFFFFF message) 0xFFFFFFFF

feed_digit_round : (crc d : ℕ) → d < 2 → feed_digit crc d ≡ crc32_round (bit_xor crc d)
unfolding feed_digit crc32_round
feed_digit_round crc d h =
    let gone : d / 2 ≡ 0 = omega arith in
    rw (
      bit_and_mask 1 (bit_xor crc d),
      bit_xor-parity crc d,
      bit_xor-half crc d,
      gone,
      bit_xor-zero (crc / 2),
    )

take_digit :
    (crc byte : ℕ)
    → crc32_round (bit_xor crc byte) ≡ bit_xor (crc32_round (bit_xor crc (byte % 2))) (byte / 2)
unfolding crc32_rounds
take_digit crc byte =
    let low : bit_xor (byte / 2 * 2) (byte % 2) ≡ byte =
      bit_xor_disjoint 1 (byte / 2) (byte % 2) (omega arith) ∙ div-add-mod' byte 2 in
    let shifted : crc32_round (byte / 2 * 2) ≡ byte / 2 = rounds_shift 1 (byte / 2) in
    cc (
      low,
      shifted,
      bit_xor_comm (byte / 2 * 2) (byte % 2),
      bit_xor_assoc crc (byte % 2) (byte / 2 * 2),
      round_linear (bit_xor crc (byte % 2)) (byte / 2 * 2),
    )

feed_digits_rounds :
    (k crc byte : ℕ) → byte < 2 ^ k → feed_digits k crc byte ≡ crc32_rounds k (bit_xor crc byte)
unfolding feed_digits crc32_rounds
feed_digits_rounds zero crc byte h = let e : byte ≡ 0 = omega arith in rw e (sym (bit_xor-zero crc))
feed_digits_rounds (suc k) crc byte h =
    rw (feed_digit_round crc (byte % 2) (omega arith), take_digit crc byte)
      (feed_digits_rounds k (crc32_round (bit_xor crc (byte % 2))) (byte / 2)
        (omega (arith, pow-suc 2 k)))

update_feed :
    (crc : ℕ) (buffer : List ℕ)
    → All (λ b. b < 256) buffer
    → crc32_update crc buffer ≡ feed crc buffer
unfolding crc32_update feed
update_feed crc [] h = refl
update_feed crc (b ∷ bs) h =
    rw (feed_digits_rounds 8 crc b h.0, ← step_rounds crc b h.0)
      (update_feed (crc32_step crc b) bs h.1)

-- On every buffer of bytes, the table-driven `ftn_crc32_calculate` is the bit-serial CRC-32.
pub crc32_calculate-serial_crc32 :
    (buffer : List ℕ) → All (λ b. b < 256) buffer → crc32_calculate buffer ≡ serial_crc32 buffer
unfolding crc32_calculate serial_crc32
crc32_calculate-serial_crc32 buffer h = rw (update_feed 0xFFFFFFFF buffer h)

pub update-append :
    (crc : ℕ) (front back : List ℕ)
    → crc32_update crc (front ++ back) ≡ crc32_update (crc32_update crc front) back
unfolding crc32_update
update-append crc [] back = refl
update-append crc (b ∷ front) back = update-append (crc32_step crc b) front back

abbrev pub concat : List (List ℕ) → List ℕ
concat [] = []
concat (c ∷ cs) = c ++ concat cs

-- What `fread` gives before a call that gives nothing.
abbrev pub bytes_read : List (List ℕ) → List ℕ
bytes_read [] = []
bytes_read ([] ∷ later) = []
bytes_read ((byte ∷ chunk) ∷ later) = (byte ∷ chunk) ++ bytes_read later

reads_update :
    (crc : ℕ) (reads : List (List ℕ)) → crc32_reads crc reads ≡ crc32_update crc (bytes_read reads)
unfolding crc32_reads
reads_update crc [] = unfold crc32_update in refl
reads_update crc ([] ∷ later) = unfold crc32_update in refl
reads_update crc ((byte ∷ chunk) ∷ later) =
    reads_update (crc32_update crc (byte ∷ chunk)) later
    ∙ sym (update-append crc (byte ∷ chunk) (bytes_read later))

-- `ftn_crc32_file` fails on a file that cannot be opened, and stores nothing. On one that can be, it
-- succeeds and stores the bit-serial CRC-32 of the bytes that `fread` gives, however it cuts them into
-- chunks, before the first call that gives nothing; the code takes that for the end of the file, also
-- when it is an error.
pub crc32_file-serial_crc32 :
    (reads : List (List ℕ))
    → All (λ b. b < 256) (bytes_read reads)
    → (crc32_file none ≡ (protocol_error, none))
      × (crc32_file (some reads) ≡ (ok, some (serial_crc32 (bytes_read reads))))
unfolding crc32_file
crc32_file-serial_crc32 reads h = (
  refl,
  rw (reads_update 0xFFFFFFFF reads) (
      ap {B = Status × Option ℕ} (λ crc. (ok, some crc))
        (unfold crc32_calculate in crc32_calculate-serial_crc32 (bytes_read reads) h)),
)
