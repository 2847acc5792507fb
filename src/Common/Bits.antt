-- ===== src/Common/Bits.antt =====
-- Bit operations as arithmetic: one equation for the lowest digit of each, masks and fields.
use Prim.Native.Nat.{ℕ, zero, suc, ◌+◌, ◌-◌, ◌*◌, ◌/◌, ◌%◌, ◌^◌, ◌≤◌, ◌<◌, min, max}
use Prim.Native.Nat.{digits, bitwise, differ, bit_and, bit_or, bit_xor}
use Prim.Native.Nat.{bit_and-bitwise, bit_or-bitwise, bit_xor-bitwise}
use mathlib.Core.Path.{◌≡◌, refl, sym, ap}
use native.Mathlib.Nat.{le_refl, pow-suc, one-le-pow, mul_comm, div-div-eq-div-mul}
use native.Mathlib.Omega.{arith}

module _ (rest : ℕ → ℕ) (bit : ℕ → ℕ → ℕ) where
  -- The fuel does not matter once it covers the first operand.
  digits_covered :
      (x y left right : ℕ)
      → x ≤ left
      → x ≤ right
      → digits rest bit left x y ≡ digits rest bit right x y
  digits_covered zero y zero zero hl hr = refl
  digits_covered zero y zero (suc right) hl hr = refl
  digits_covered zero y (suc left) zero hl hr = refl
  digits_covered zero y (suc left) (suc right) hl hr = refl
  digits_covered (suc x) y zero right hl hr = absurd (omega (arith, hl))
  digits_covered (suc x) y (suc left) zero hl hr = absurd (omega (arith, hr))
  digits_covered (suc x) y (suc left) (suc right) hl hr =
      let half : suc x / 2 ≤ left = omega (arith, hl) in
      let half' : suc x / 2 ≤ right = omega (arith, hr) in
      rw (digits_covered (suc x / 2) (y / 2) left right half half')

  bitwise_halves :
      (x y : ℕ)
      → bitwise rest bit (suc x) y
        ≡ bitwise rest bit (suc x / 2) (y / 2) * 2 + bit (suc x % 2) (y % 2)
  bitwise_halves x y =
      let half : suc x / 2 ≤ x = omega arith in
      omega (arith, digits_covered (suc x / 2) (y / 2) x (suc x / 2) half (le_refl _))

pub bit_and_step : (x y : ℕ) → bit_and x y ≡ bit_and (x / 2) (y / 2) * 2 + min (x % 2) (y % 2)
bit_and_step zero y = simp bit_and-bitwise (omega arith)
bit_and_step (suc x) y = simp bit_and-bitwise (bitwise_halves (λ _. 0) min x y)

pub bit_or_step : (x y : ℕ) → bit_or x y ≡ bit_or (x / 2) (y / 2) * 2 + max (x % 2) (y % 2)
bit_or_step zero y = simp bit_or-bitwise (omega arith)
bit_or_step (suc x) y = simp bit_or-bitwise (bitwise_halves (λ t. t) max x y)

differ_bits : (a b : ℕ) → differ (a % 2) (b % 2) ≡ (a + b) % 2
differ_bits a b = go (a % 2) (b % 2) (omega arith) (omega arith) (omega arith)
  where
    go : (x y : ℕ) → x < 2 → y < 2 → (x + y) % 2 ≡ (a + b) % 2 → differ x y ≡ (a + b) % 2
    go zero y p q e = omega arith
    go (suc zero) zero p q e = omega arith
    go (suc zero) (suc zero) p q e = omega arith
    go (suc zero) (suc (suc y)) p q e = absurd (omega arith)
    go (suc (suc x)) y p q e = absurd (omega arith)

pub bit_xor_step : (a b : ℕ) → bit_xor a b ≡ bit_xor (a / 2) (b / 2) * 2 + (a + b) % 2
bit_xor_step zero b = simp bit_xor-bitwise (omega arith)
bit_xor_step (suc a) b =
    rw (← differ_bits (suc a) b) (simp bit_xor-bitwise (bitwise_halves (λ y. y) differ a b))

-- With nothing on the right, a word is kept or cleared.
zero_right : (fuel x : ℕ) → x ≤ fuel → (bit_or x 0 ≡ x) × (bit_and x 0 ≡ 0)
zero_right fuel zero le = (refl, refl)
zero_right zero (suc x) le = absurd (omega (arith, le))
zero_right (suc fuel) (suc x) le =
    let (kept, cleared) = zero_right fuel (suc x / 2) (omega (arith, le)) in
    (omega (arith, bit_or_step (suc x) 0, kept), omega (arith, bit_and_step (suc x) 0, cleared))

pub bit_and-zero : (x : ℕ) → bit_and x 0 ≡ 0
bit_and-zero x = (zero_right x x (le_refl x)).1

-- The next power of two, times a factor.
next_power : (n k : ℕ) → n * 2 ^ suc k ≡ n * 2 ^ k + n * 2 ^ k
next_power n k = omega (arith, ap (λ (p : ℕ). n * p) (pow-suc 2 k))

-- `high << k | low` is a sum where `low` has `k` bits.
pub bit_or_disjoint :
    (k high low : ℕ) → low < 2 ^ k → bit_or (high * 2 ^ k) low ≡ high * 2 ^ k + low
bit_or_disjoint zero high low h = ground (arith, (zero_right high high (le_refl high)).0)
bit_or_disjoint (suc k) high low h =
    let small : low / 2 < 2 ^ k = omega (arith, h, pow-suc 2 k) in
    let halves = bit_or_disjoint k high (low / 2) small in
    ground (arith, halves, next_power high k, bit_or_step (high * 2 ^ suc k) low)

low_part : (k high low : ℕ) → low < 2 ^ k → bit_and (high * 2 ^ k + low) (2 ^ k - 1) ≡ low
low_part zero high low h = rw bit_and-zero (omega (arith, h))
low_part (suc k) high low h =
    let small : low / 2 < 2 ^ k = omega (arith, h, pow-suc 2 k) in
    let word = high * 2 ^ suc k + low in
    ground (
      arith,
      low_part k high (low / 2) small,
      pow-suc 2 k,
      next_power high k,
      bit_and_step word (2 ^ suc k - 1),
    )

-- A mask of the low `k` bits leaves the remainder.
pub bit_and_mask : (k word : ℕ) → bit_and word (2 ^ k - 1) ≡ word % 2 ^ k
bit_and_mask k word =
    let split = low_part k (word / 2 ^ k) (word % 2 ^ k) in ground (arith, split, one-le-pow k 2)

-- Testing one bit.
pub bit_and_bit : (k a : ℕ) → bit_and a (2 ^ k) ≡ a / 2 ^ k % 2 * 2 ^ k
bit_and_bit zero a = omega (arith, bit_and_step a 1, bit_and-zero (a / 2))
bit_and_bit (suc k) a = ground (
  arith,
  bit_and_step a (2 ^ suc k),
  pow-suc 2 k,
  next_power (a / 2 / 2 ^ k % 2) k,
  halves,
  bit_and_bit k (a / 2),
)
  where
    halves : a / 2 ^ suc k ≡ a / 2 / 2 ^ k
    halves = rw (pow-suc 2 k, mul_comm (2 ^ k) 2) (sym (div-div-eq-div-mul a 2 (2 ^ k)))

or_comm_fuel : (n a b : ℕ) → a ≤ n → b ≤ n → bit_or a b ≡ bit_or b a
or_comm_fuel zero zero zero p q = refl
or_comm_fuel zero (suc a) b p q = absurd (omega arith)
or_comm_fuel zero zero (suc b) p q = absurd (omega arith)
or_comm_fuel (suc n) a b p q = omega (
  arith,
  bit_or_step a b,
  bit_or_step b a,
  or_comm_fuel n (a / 2) (b / 2) (omega arith) (omega arith),
)

pub bit_or_comm : (a b : ℕ) → bit_or a b ≡ bit_or b a
bit_or_comm a b = or_comm_fuel (a + b) a b (omega arith) (omega arith)
