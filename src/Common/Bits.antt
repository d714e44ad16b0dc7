-- ===== src/Common/Bits.antt =====
-- Laws of `&`, `|` and `^` at variables, from the recursion on binary digits that they stand for.
use Prim.Native.Nat.{ℕ, zero, suc, ◌+◌, ◌-◌, ◌*◌, ◌/◌, ◌%◌, ◌^◌, ◌≤◌, ◌<◌, min, max, differ, digits}
use Prim.Native.Nat.{bitwise, bit_and, bit_or, bit_xor}
use Prim.Native.Nat.{bit_and-bitwise, bit_or-bitwise, bit_xor-bitwise}
use mathlib.Core.Path.{◌≡◌, refl, ap, ◌∙◌}
use native.Mathlib.Nat.{pow-suc, one-le-pow}
use native.Mathlib.Omega.{arith}

-- An operation on numbers that works digit by digit: `f` on two digits, and `z` where no digit of
-- the first number is left.
module _ (z : ℕ → ℕ) (f : ℕ → ℕ → ℕ) where
  one_round_more : (n a b : ℕ) → a ≤ n → digits z f (suc n) a b ≡ digits z f n a b
  one_round_more zero zero b h = refl
  one_round_more zero (suc a) b h = absurd (omega arith)
  one_round_more (suc n) zero b h = refl
  one_round_more (suc n) (suc a) b h =
      let higher = one_round_more n (suc a / 2) (b / 2) (omega arith) in
      ap (λ (t : ℕ). t * 2 + f (suc a % 2) (b % 2)) higher

  rounds_more : (k n m a b : ℕ) → m ≡ k + n → a ≤ n → digits z f m a b ≡ digits z f n a b
  rounds_more zero n m a b e h = ap (λ t. digits z f t a b) (omega arith)
  rounds_more (suc k) n zero a b e h = absurd (omega arith)
  rounds_more (suc k) n (suc m) a b e h =
      one_round_more m a b (omega arith) ∙ rounds_more k n m a b (omega arith) h

  module _ (op : ℕ → ℕ → ℕ) (means : (a b : ℕ) → op a b ≡ bitwise z f a b)
      (ends : (b : ℕ) → z b ≡ z (b / 2) * 2 + f 0 (b % 2)) where
    -- The lowest digit apart from the others.
    lowest_digit : (a b : ℕ) → op a b ≡ op (a / 2) (b / 2) * 2 + f (a % 2) (b % 2)
    lowest_digit zero b = omega (arith, means 0 b, means 0 (b / 2), ends b)
    lowest_digit (suc a) b = omega (
      arith,
      means (suc a) b,
      means (suc a / 2) (b / 2),
      rounds_more (a - suc a / 2) (suc a / 2) a (suc a / 2) (b / 2) (omega arith) (omega arith),
    )

and_digit : (a b : ℕ) → bit_and a b ≡ bit_and (a / 2) (b / 2) * 2 + min (a % 2) (b % 2)
and_digit = lowest_digit (λ t. zero) min bit_and (λ a b. bit_and-bitwise a b) (λ b. omega arith)

or_digit : (a b : ℕ) → bit_or a b ≡ bit_or (a / 2) (b / 2) * 2 + max (a % 2) (b % 2)
or_digit = lowest_digit (λ t. t) max bit_or (λ a b. bit_or-bitwise a b) (λ b. omega arith)

xor_digit : (a b : ℕ) → bit_xor a b ≡ bit_xor (a / 2) (b / 2) * 2 + differ (a % 2) (b % 2)
xor_digit = lowest_digit (λ t. t) differ bit_xor (λ a b. bit_xor-bitwise a b) (λ b. omega arith)

and_nothing : (n a : ℕ) → a ≤ n → bit_and a 0 ≡ 0
and_nothing n zero h = refl
and_nothing zero (suc a) h = absurd (omega arith)
and_nothing (suc n) (suc a) h =
    omega (arith, and_digit (suc a) 0, and_nothing n (suc a / 2) (omega arith))

or_nothing : (n a : ℕ) → a ≤ n → bit_or a 0 ≡ a
or_nothing n zero h = refl
or_nothing zero (suc a) h = absurd (omega arith)
or_nothing (suc n) (suc a) h =
    omega (arith, or_digit (suc a) 0, or_nothing n (suc a / 2) (omega arith))

-- Doubling a shifted number.
shift_once : (q k : ℕ) → q * 2 ^ suc k ≡ q * 2 ^ k * 2
shift_once q k = omega (arith, ap (λ (t : ℕ). q * t) (pow-suc 2 k))

mask_of_sum : (k q r : ℕ) → r < 2 ^ k → bit_and (q * 2 ^ k + r) (2 ^ k - 1) ≡ r
mask_of_sum zero q r h = omega (arith, and_nothing (q * 2 ^ 0 + r) (q * 2 ^ 0 + r) (omega arith))
mask_of_sum (suc k) q r h =
    let higher = mask_of_sum k q (r / 2) (omega (arith, pow-suc 2 k)) in
    ground (
      arith,
      higher,
      shift_once q k,
      pow-suc 2 k,
      one-le-pow k 2,
      and_digit (q * 2 ^ suc k + r) (2 ^ suc k - 1),
    )

-- `a & (2^k - 1)` is the remainder by `2^k`.
pub bit_and_low : (k a : ℕ) → bit_and a (2 ^ k - 1) ≡ a % 2 ^ k
bit_and_low k a =
    let split = mask_of_sum k (a / 2 ^ k) (a % 2 ^ k) in ground (arith, split, one-le-pow k 2)

-- `(q << k) | r` is a sum where `r` fits below the shift.
pub bit_or_shifted : (k q r : ℕ) → r < 2 ^ k → bit_or (q * 2 ^ k) r ≡ q * 2 ^ k + r
bit_or_shifted zero q r h = ground (arith, or_nothing q q)
bit_or_shifted (suc k) q r h =
    let higher = bit_or_shifted k q (r / 2) (omega (arith, pow-suc 2 k)) in
    ground (arith, higher, shift_once q k, or_digit (q * 2 ^ suc k) r)

differ_lem : (x y : ℕ) → x < 2 → y < 2 → (differ x y < 2) × (differ (differ x y) y ≡ x)
differ_lem zero zero p q = omega arith
differ_lem zero (suc zero) p q = omega arith
differ_lem (suc zero) zero p q = omega arith
differ_lem (suc zero) (suc zero) p q = omega arith
differ_lem (suc zero) (suc (suc y)) p q = absurd (omega arith)
differ_lem zero (suc (suc y)) p q = absurd (omega arith)
differ_lem (suc (suc x)) y p q = absurd (omega arith)

xor_back : (n a b : ℕ) → a ≤ n → b ≤ n → bit_xor (bit_xor a b) b ≡ a
xor_back zero zero zero p q = refl
xor_back zero zero (suc b) p q = absurd (omega arith)
xor_back zero (suc a) b p q = absurd (omega arith)
xor_back (suc n) a b p q =
    let (small, back) = differ_lem (a % 2) (b % 2) (omega arith) (omega arith) in
    let half : bit_xor a b / 2 ≡ bit_xor (a / 2) (b / 2) = omega (arith, xor_digit a b) in
    let low : bit_xor a b % 2 ≡ differ (a % 2) (b % 2) = omega (arith, xor_digit a b) in
    ground
      (arith, xor_digit (bit_xor a b) b, xor_back n (a / 2) (b / 2) (omega arith) (omega arith))

-- `^` by the same number twice gives the first number back.
pub xor_twice : (a b : ℕ) → bit_xor (bit_xor a b) b ≡ a
xor_twice a b = xor_back (a + b) a b (omega arith) (omega arith)

-- `^` of two numbers below a power of two stays below it.
pub xor-lt-pow : (k a b : ℕ) → a < 2 ^ k → b < 2 ^ k → bit_xor a b < 2 ^ k
xor-lt-pow zero zero zero p q = omega arith
xor-lt-pow zero zero (suc b) p q = absurd (omega arith)
xor-lt-pow zero (suc a) b p q = absurd (omega arith)
xor-lt-pow (suc k) a b p q =
    let small = differ_lem (a % 2) (b % 2) (omega arith) (omega arith) in
    let higher =
      xor-lt-pow k (a / 2) (b / 2) (omega (arith, pow-suc 2 k)) (omega (arith, pow-suc 2 k)) in
    omega (arith, higher, small.0, pow-suc 2 k, xor_digit a b)

pub bit_or_zero : (a : ℕ) → bit_or a 0 ≡ a
bit_or_zero a = or_nothing a a (omega arith)

max_small : (x y : ℕ) → x < 2 → y < 2 → max x y < 2
max_small x y p q = omega arith

-- `|` of two numbers below a power of two stays below it.
pub or-lt-pow : (k a b : ℕ) → a < 2 ^ k → b < 2 ^ k → bit_or a b < 2 ^ k
or-lt-pow zero zero zero p q = omega arith
or-lt-pow zero zero (suc b) p q = absurd (omega arith)
or-lt-pow zero (suc a) b p q = absurd (omega arith)
or-lt-pow (suc k) a b p q =
    let small = max_small (a % 2) (b % 2) (omega arith) (omega arith) in
    let higher =
      or-lt-pow k (a / 2) (b / 2) (omega (arith, pow-suc 2 k)) (omega (arith, pow-suc 2 k)) in
    omega (arith, higher, small, pow-suc 2 k, or_digit a b)
