-- ===== src/Base/Bits.antt =====
-- Shifts, masks and disjoint fields of a word, as arithmetic.
use Prim.Native.Nat.{ℕ, zero, suc, ◌+◌, ◌-◌, ◌*◌, ◌/◌, ◌%◌, ◌^◌, ◌≤◌, ◌<◌, min, max}
use Prim.Native.Nat.{bit_and, bit_or, digits, bitwise, bit_and-bitwise, bit_or-bitwise}
use mathlib.Core.Path.{◌≡◌, refl, ap, ap₂, ◌∙◌}
use native.Mathlib.Nat.{pow-suc, one-le-pow, le_refl, div-add-mod, div-div-eq-div-mul}
use native.Mathlib.Omega.{arith}

module _ (z : ℕ → ℕ) (f : ℕ → ℕ → ℕ) where
  -- Fuel beyond the first word makes no difference.
  digits_enough : (m a b k : ℕ) → a ≤ m → a ≤ k → digits z f m a b ≡ digits z f k a b
  digits_enough zero zero b zero p q = refl
  digits_enough zero zero b (suc k) p q = refl
  digits_enough (suc m) zero b zero p q = refl
  digits_enough (suc m) zero b (suc k) p q = refl
  digits_enough zero (suc a) b k p q = absurd (omega arith)
  digits_enough (suc m) (suc a) b zero p q = absurd (omega arith)
  digits_enough (suc m) (suc a) b (suc k) p q =
      ap (λ (t : ℕ). t * 2 + f (suc a % 2) (b % 2))
        (digits_enough m (suc a / 2) (b / 2) k (omega arith) (omega arith))

  bitwise_low :
      (a b : ℕ)
      → bitwise z f (suc a) b ≡ bitwise z f (suc a / 2) (b / 2) * 2 + f (suc a % 2) (b % 2)
  bitwise_low a b =
      ap (λ (t : ℕ). t * 2 + f (suc a % 2) (b % 2))
        (digits_enough a (suc a / 2) (b / 2) (suc a / 2) (omega arith) (le_refl _))

-- The lowest digit of `|` and of `&`, and the rest.
pub bit_or_low : (a b : ℕ) → bit_or a b ≡ bit_or (a / 2) (b / 2) * 2 + max (a % 2) (b % 2)
bit_or_low zero b = simp bit_or-bitwise (omega arith)
bit_or_low (suc a) b = simp bit_or-bitwise (bitwise_low (λ y. y) max a b)

pub bit_and_low : (a b : ℕ) → bit_and a b ≡ bit_and (a / 2) (b / 2) * 2 + min (a % 2) (b % 2)
bit_and_low zero b = simp bit_and-bitwise (omega arith)
bit_and_low (suc a) b = simp bit_and-bitwise (bitwise_low (λ y. 0) min a b)

zero-bit_or : (b : ℕ) → bit_or 0 b ≡ b
zero-bit_or b = bit_or-bitwise 0 b

zero-bit_and : (b : ℕ) → bit_and 0 b ≡ 0
zero-bit_and b = bit_and-bitwise 0 b

bit_or-zero_below : (n a : ℕ) → a ≤ n → bit_or a 0 ≡ a
bit_or-zero_below zero a h = ground (arith, zero-bit_or 0)
bit_or-zero_below (suc n) a h = omega (arith, bit_or_low a 0, bit_or-zero_below n (a / 2))

bit_and-zero_below : (n a : ℕ) → a ≤ n → bit_and a 0 ≡ 0
bit_and-zero_below zero a h = ground (arith, zero-bit_and 0)
bit_and-zero_below (suc n) a h = omega (arith, bit_and_low a 0, bit_and-zero_below n (a / 2))

pub bit_or-zero : (a : ℕ) → bit_or a 0 ≡ a
bit_or-zero a = bit_or-zero_below a a (le_refl a)

pub bit_and-zero : (a : ℕ) → bit_and a 0 ≡ 0
bit_and-zero a = bit_and-zero_below a a (le_refl a)

double_pow : (q k : ℕ) → q * 2 ^ suc k ≡ 2 * (q * 2 ^ k)
double_pow q k = omega (arith, ap (λ (t : ℕ). q * t) (pow-suc 2 k))

half-div-pow : (a k : ℕ) → a / 2 / 2 ^ k ≡ a / 2 ^ suc k
half-div-pow a k =
    div-div-eq-div-mul a 2 (2 ^ k) ∙ ap (λ (t : ℕ). a / t) (omega (arith, pow-suc 2 k))

mod-pow-suc : (a k : ℕ) → a % 2 ^ suc k ≡ 2 * (a / 2 % 2 ^ k) + a % 2
mod-pow-suc a k = omega (
  arith,
  div-add-mod a (2 ^ suc k),
  div-add-mod (a / 2) (2 ^ k),
  double_pow (a / 2 ^ suc k) k,
  ap (λ (t : ℕ). t * 2 ^ k) (half-div-pow a k),
)

-- `(q << k) | r` is a sum where `r` fits below bit `k`.
pub bit_or_disjoint : (k q r : ℕ) → r < 2 ^ k → bit_or (q * 2 ^ k) r ≡ q * 2 ^ k + r
bit_or_disjoint zero q r h = ground (arith, bit_or-zero q)
bit_or_disjoint (suc k) q r h = omega (
  arith,
  bit_or_low (q * 2 ^ suc k) r,
  ap (λ (t : ℕ). bit_or t (r / 2)) half,
  double_pow q k,
  pow-suc 2 k,
  bit_or_disjoint k q (r / 2) small,
)
  where
    half : q * 2 ^ suc k / 2 ≡ q * 2 ^ k
    half = omega (arith, double_pow q k)

    small : r / 2 < 2 ^ k
    small = omega (arith, pow-suc 2 k)

-- `x & (m << k)` looks at the word above bit `k`.
pub bit_and_shifted : (k a m : ℕ) → bit_and a (m * 2 ^ k) ≡ bit_and (a / 2 ^ k) m * 2 ^ k
bit_and_shifted zero a m = omega (arith, ap (bit_and a) scaled, ap (λ (t : ℕ). bit_and t m) whole)
  where
    scaled : m * 2 ^ 0 ≡ m
    scaled = omega arith

    whole : a / 2 ^ 0 ≡ a
    whole = omega arith
bit_and_shifted (suc k) a m = omega (
  arith,
  bit_and_low a (m * 2 ^ suc k),
  ap (λ (t : ℕ). bit_and (a / 2) t) half,
  double_pow m k,
  double_pow (bit_and (a / 2 ^ suc k) m) k,
  bit_and_shifted k (a / 2) m,
  ap (λ (t : ℕ). bit_and t m * 2 ^ k) (half-div-pow a k),
)
  where
    half : m * 2 ^ suc k / 2 ≡ m * 2 ^ k
    half = omega (arith, double_pow m k)

-- `x & ((1 << k) - 1)` is the remainder.
pub bit_and_mask : (k a : ℕ) → bit_and a (2 ^ k - 1) ≡ a % 2 ^ k
bit_and_mask zero a = omega (arith, bit_and-zero a)
bit_and_mask (suc k) a = omega (
  arith,
  bit_and_low a (2 ^ suc k - 1),
  ap (λ (t : ℕ). bit_and (a / 2) t) half,
  pow-suc 2 k,
  one-le-pow k 2,
  bit_and_mask k (a / 2),
  mod-pow-suc a k,
)
  where
    half : (2 ^ suc k - 1) / 2 ≡ 2 ^ k - 1
    half = omega (arith, pow-suc 2 k, one-le-pow k 2)

-- An operation on the digits acts on the two sides of bit `k` apart.
module _ (op f : ℕ → ℕ → ℕ)
    (low : (a b : ℕ) → op a b ≡ op (a / 2) (b / 2) * 2 + f (a % 2) (b % 2)) where
  op_eq : {a a' b b' : ℕ} → a ≡ a' → b ≡ b' → op a b ≡ op a' b'
  op_eq p q = ap₂ op p q

  op_split :
      (k a q r : ℕ) → r < 2 ^ k → op a (q * 2 ^ k + r) ≡ op (a / 2 ^ k) q * 2 ^ k + op (a % 2 ^ k) r
  op_split zero a q r h =
      omega (arith, low 0 0, op_eq whole all, op_eq {a = a % 2 ^ 0} {b = r} {b' = 0} rest none_left)
    where
      whole : a ≡ a / 2 ^ 0
      whole = omega arith

      all : q * 2 ^ 0 + r ≡ q
      all = omega arith

      rest : a % 2 ^ 0 ≡ 0
      rest = omega arith

      none_left : r ≡ 0
      none_left = omega arith
  op_split (suc k) a q r h = omega (
    arith,
    low a (q * 2 ^ suc k + r),
    low (a % 2 ^ suc k) r,
    op_split k (a / 2) q (r / 2) small,
    op_eq {a = a / 2} {a' = a / 2} refl half,
    ap (λ (t : ℕ). op t q * 2 ^ k) above,
    op_eq {b = r / 2} below refl,
    double_pow (op (a / 2 ^ suc k) q) k,
    ap (λ (t : ℕ). f t (r % 2)) bit,
    ap (f (a % 2)) bit_r,
  )
    where
      half : (q * 2 ^ suc k + r) / 2 ≡ q * 2 ^ k + r / 2
      half = omega (arith, double_pow q k)

      small : r / 2 < 2 ^ k
      small = omega (arith, pow-suc 2 k)

      above : a / 2 / 2 ^ k ≡ a / 2 ^ suc k
      above = half-div-pow a k

      split : a % 2 ^ suc k ≡ 2 * (a / 2 % 2 ^ k) + a % 2
      split = mod-pow-suc a k

      below : a % 2 ^ suc k / 2 ≡ a / 2 % 2 ^ k
      below = omega (arith, split)

      bit : a % 2 ^ suc k % 2 ≡ a % 2
      bit = omega (arith, split)

      bit_r : (q * 2 ^ suc k + r) % 2 ≡ r % 2
      bit_r = omega (arith, double_pow q k)

pub bit_and_split :
    (k a q r : ℕ)
    → r < 2 ^ k
    → bit_and a (q * 2 ^ k + r) ≡ bit_and (a / 2 ^ k) q * 2 ^ k + bit_and (a % 2 ^ k) r
bit_and_split = op_split bit_and min bit_and_low

pub bit_or_split :
    (k a q r : ℕ)
    → r < 2 ^ k
    → bit_or a (q * 2 ^ k + r) ≡ bit_or (a / 2 ^ k) q * 2 ^ k + bit_or (a % 2 ^ k) r
bit_or_split = op_split bit_or max bit_or_low
