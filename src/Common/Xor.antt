-- ===== src/Common/Xor.antt =====
-- Exclusive or is associative and commutative, with 0 as its unit.
use Prim.Native.Nat.{ℕ, zero, suc, ◌+◌, ◌*◌, ◌/◌, ◌%◌, ◌^◌, ◌≤◌, ◌<◌, bit_xor}
use mathlib.Core.Path.{◌≡◌, refl, sym, ap}
use native.Mathlib.Nat.{le_refl, pow-suc, mul_comm, mul-one, add-zero, div-one, div-div-eq-div-mul}
use native.Mathlib.Nat.{one-le-pow, div-add-mod', mul-add-mod_self_right, mod-eq_of_lt, mod-lt}
use native.Mathlib.Omega.{arith}
use lib_ftn.Common.Bits.{bit_xor_step}

pub bit_xor-half : (a b : ℕ) → bit_xor a b / 2 ≡ bit_xor (a / 2) (b / 2)
bit_xor-half a b = omega (arith, bit_xor_step a b)

pub bit_xor-parity : (a b : ℕ) → bit_xor a b % 2 ≡ (a + b) % 2
bit_xor-parity a b = omega (arith, bit_xor_step a b)

comm_fuel : (n a b : ℕ) → a ≤ n → b ≤ n → bit_xor a b ≡ bit_xor b a
comm_fuel zero zero zero p q = refl
comm_fuel zero (suc a) b p q = absurd (omega arith)
comm_fuel zero zero (suc b) p q = absurd (omega arith)
comm_fuel (suc n) a b p q = omega (
  arith,
  bit_xor_step a b,
  bit_xor_step b a,
  comm_fuel n (a / 2) (b / 2) (omega arith) (omega arith),
)

pub bit_xor_comm : (a b : ℕ) → bit_xor a b ≡ bit_xor b a
bit_xor_comm a b = comm_fuel (a + b) a b (omega arith) (omega arith)

pub zero-bit_xor : (b : ℕ) → bit_xor 0 b ≡ b
zero-bit_xor b = fuel b b (le_refl b)
  where
    fuel : (n b : ℕ) → b ≤ n → bit_xor 0 b ≡ b
    fuel zero zero h = refl
    fuel zero (suc b) h = absurd (omega arith)
    fuel (suc n) b h = omega (arith, bit_xor_step 0 b, fuel n (b / 2) (omega arith))

pub bit_xor-zero : (a : ℕ) → bit_xor a 0 ≡ a
bit_xor-zero a = omega (arith, bit_xor_comm a 0, zero-bit_xor a)

pub bit_xor_self : (a : ℕ) → bit_xor a a ≡ 0
bit_xor_self a = fuel a a (le_refl a)
  where
    fuel : (n a : ℕ) → a ≤ n → bit_xor a a ≡ 0
    fuel zero zero h = refl
    fuel zero (suc a) h = absurd (omega arith)
    fuel (suc n) a h = omega (arith, bit_xor_step a a, fuel n (a / 2) (omega arith))

assoc_fuel : (n a b c : ℕ) → a + b + c ≤ n → bit_xor (bit_xor a b) c ≡ bit_xor a (bit_xor b c)
assoc_fuel zero zero zero zero h = refl
assoc_fuel zero (suc a) b c h = absurd (omega arith)
assoc_fuel zero zero (suc b) c h = absurd (omega arith)
assoc_fuel zero zero zero (suc c) h = absurd (omega arith)
assoc_fuel (suc n) a b c h = ground (
  arith,
  bit_xor_step (bit_xor a b) c,
  bit_xor_step a (bit_xor b c),
  bit_xor-half a b,
  bit_xor-half b c,
  bit_xor-parity a b,
  bit_xor-parity b c,
  assoc_fuel n (a / 2) (b / 2) (c / 2),
)

pub bit_xor_assoc : (a b c : ℕ) → bit_xor (bit_xor a b) c ≡ bit_xor a (bit_xor b c)
bit_xor_assoc a b c = assoc_fuel (a + b + c) a b c (le_refl _)

-- Exclusive or acts on each digit alone, so it commutes with cutting a number at `2 ^ k`.
half_power : (a k : ℕ) → a / 2 ^ suc k ≡ a / 2 / 2 ^ k
half_power a k = rw (pow-suc 2 k, mul_comm (2 ^ k) 2) (sym (div-div-eq-div-mul a 2 (2 ^ k)))

pub double_power : (q k : ℕ) → q * 2 ^ suc k ≡ 2 * (q * 2 ^ k)
double_power q k = omega (arith, ap (λ (t : ℕ). q * t) (pow-suc 2 k))

pub bit_xor-div : (k a b : ℕ) → bit_xor a b / 2 ^ k ≡ bit_xor (a / 2 ^ k) (b / 2 ^ k)
bit_xor-div zero a b = simp div-one
bit_xor-div (suc k) a b =
    rw (half_power (bit_xor a b) k, half_power a k, half_power b k, bit_xor-half a b)
      (bit_xor-div k (a / 2) (b / 2))

pub bit_xor-lt : (k a b : ℕ) → a < 2 ^ k → b < 2 ^ k → bit_xor a b < 2 ^ k
bit_xor-lt zero a b p q = let e : (a ≡ 0) × (b ≡ 0) = omega arith in rw (e.0, e.1) (omega arith)
bit_xor-lt (suc k) a b p q =
    let s = pow-suc 2 k in
    omega (
      arith,
      s,
      bit_xor_step a b,
      bit_xor-lt k (a / 2) (b / 2) (omega (arith, s)) (omega (arith, s)),
    )

pub bit_xor_disjoint : (k q r : ℕ) → r < 2 ^ k → bit_xor (q * 2 ^ k) r ≡ q * 2 ^ k + r
bit_xor_disjoint zero q r h =
    let e : r ≡ 0 = omega arith in rw e (omega (arith, bit_xor-zero (q * 2 ^ 0)))
bit_xor_disjoint (suc k) q r h =
    let s = pow-suc 2 k in
    let d : q * 2 ^ suc k ≡ 2 * (q * 2 ^ k) = omega (arith, ap (λ (t : ℕ). q * t) s) in
    omega (
      arith,
      d,
      bit_xor_step (q * 2 ^ suc k) r,
      ap (λ (t : ℕ). bit_xor t (r / 2)) half,
      bit_xor_disjoint k q (r / 2) (omega (arith, s)),
    )
  where
    half : q * 2 ^ suc k / 2 ≡ q * 2 ^ k
    half = omega (arith, ap (λ (t : ℕ). q * t) (pow-suc 2 k))

-- The two parts of a sum of fields combine field by field.
pub bit_xor_fields :
    (k p q r s : ℕ)
    → r < 2 ^ k
    → s < 2 ^ k
    → bit_xor (p * 2 ^ k + r) (q * 2 ^ k + s) ≡ bit_xor p q * 2 ^ k + bit_xor r s
bit_xor_fields zero p q r s hr hs =
    let e : (r ≡ 0) × (s ≡ 0) = omega arith in rw (e.0, e.1) (simp (mul-one, add-zero) refl)
bit_xor_fields (suc k) p q r s hr hs = ground (
  arith,
  pow-suc 2 k,
  bit_xor_step (p * 2 ^ suc k + r) (q * 2 ^ suc k + s),
  bit_xor_step r s,
  double_power p k,
  double_power q k,
  double_power (bit_xor p q) k,
  bit_xor_fields k p q (r / 2) (s / 2),
)

pub two_pow_pos : (k : ℕ) → 0 < 2 ^ k
two_pow_pos k = one-le-pow k 2 (omega arith)

pub bit_xor-mod : (k a b : ℕ) → bit_xor a b % 2 ^ k ≡ bit_xor (a % 2 ^ k) (b % 2 ^ k)
bit_xor-mod k a b = ground (
  arith,
  two_pow_pos k,
  div-add-mod' a (2 ^ k),
  div-add-mod' b (2 ^ k),
  bit_xor_fields k (a / 2 ^ k) (b / 2 ^ k) (a % 2 ^ k) (b % 2 ^ k),
  mul-add-mod_self_right (bit_xor (a / 2 ^ k) (b / 2 ^ k)) (2 ^ k)
      (bit_xor (a % 2 ^ k) (b % 2 ^ k)),
  mod-eq_of_lt
      (bit_xor-lt k (a % 2 ^ k) (b % 2 ^ k) (mod-lt a (two_pow_pos k)) (mod-lt b (two_pow_pos k))),
)

pub bit_xor_interchange :
    (a b c d : ℕ) → bit_xor (bit_xor a b) (bit_xor c d) ≡ bit_xor (bit_xor a c) (bit_xor b d)
bit_xor_interchange a b c d = cc (
  bit_xor_assoc a b (bit_xor c d),
  bit_xor_assoc b c d,
  bit_xor_assoc c b d,
  bit_xor_comm b c,
  bit_xor_assoc a c (bit_xor b d),
)

-- Exclusive or with a fixed number undoes itself.
pub bit_xor_cancel : (a b : ℕ) → bit_xor (bit_xor a b) b ≡ a
bit_xor_cancel a b = cc (bit_xor_assoc a b b, bit_xor_self b, bit_xor-zero a)
