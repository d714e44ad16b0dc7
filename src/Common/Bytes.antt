-- ===== src/Common/Bytes.antt =====
-- The masks that the code applies to bytes, as arithmetic. Where no general law serves, the law is
-- checked at all values of a byte.
use Prim.Native.Nat.{ℕ, zero, suc, ◌+◌, ◌*◌, ◌/◌, ◌%◌, ◌<◌, bit_and, bit_or}
use mathlib.Core.Path.{◌≡◌, refl}
use mathlib.Core.Bool.{Bool, true, false}
use native.Mathlib.Omega.{arith}
use c_mx.Common.Tests.{◌==◌, ==_iff, if◌then◌else◌}
use c_mx.Common.Bits.{bit_and_low}

-- Does the test pass at every number below `n`?
passes_below : (ℕ → Bool) → ℕ → Bool
passes_below test zero = true
passes_below test (suc n) = if test n then passes_below test n else false

passes_at : (test : ℕ → Bool) (n x : ℕ) → passes_below test n ≡ true → x < n → test x ≡ true
unfolding passes_below
passes_at test zero x all h = elim h [ ]
passes_at test (suc n) x all h = ground (arith, passes_at test n x)

pub bit_and_127 : (c : ℕ) → bit_and c 127 ≡ c % 128
bit_and_127 c = bit_and_low 7 c

pub bit_and_15 : (c : ℕ) → bit_and c 15 ≡ c % 16
bit_and_15 c = bit_and_low 4 c

pub bit_and_255 : (c : ℕ) → bit_and c 255 ≡ c % 256
bit_and_255 c = bit_and_low 8 c

pub bit_and_3 : (c : ℕ) → bit_and c 3 ≡ c % 4
bit_and_3 c = bit_and_low 2 c

top_table : passes_below (λ c. bit_and c 128 == c / 128 * 128) 256 ≡ true
unfolding passes_below
top_table = refl

pub bit_and_128 : (c : ℕ) → c < 256 → bit_and c 128 ≡ c / 128 * 128
bit_and_128 c h = (==_iff _ _).0 (passes_at _ 256 c top_table h)

set_top_table : passes_below (λ c. bit_or c 128 == c + 128) 128 ≡ true
unfolding passes_below
set_top_table = refl

pub bit_or_128 : (c : ℕ) → c < 128 → bit_or c 128 ≡ c + 128
bit_or_128 c h = (==_iff _ _).0 (passes_at _ 128 c set_top_table h)
