-- ===== src/Buffer/Zeroing.antt =====
-- An allocator as include/mx/memory.h expects one: every promise that the buffer relies on can hold.
use c_mx.Common.{ℕ, zero, suc, ◌≤◌, [], ◌∷◌, length, take, arith, ◌≡◌, refl, ap, Memory}
use c_mx.Buffer.{Allocator}

unfoldable pub zeros : ℕ → Memory
zeros zero = []
zeros (suc n) = 0 ∷ zeros n

pub length-zeros : (n : ℕ) → length (zeros n) ≡ n
unfolding zeros
length-zeros zero = refl
length-zeros (suc n) = omega (arith, length-zeros n)

unfoldable pub resized : Memory → ℕ → Memory
resized block zero = []
resized [] (suc n) = zeros (suc n)
resized (x ∷ block) (suc n) = x ∷ resized block n

pub length-resized : (block : Memory) (n : ℕ) → length (resized block n) ≡ n
unfolding resized
length-resized block zero = refl
length-resized [] (suc n) = length-zeros (suc n)
length-resized (x ∷ block) (suc n) = omega (arith, length-resized block n)

pub take-resized :
    (block : Memory) (n k : ℕ) → k ≤ length block → k ≤ n → take k (resized block n) ≡ take k block
unfolding resized
take-resized block n zero h l = refl
take-resized block zero (suc k) h l = absurd (omega arith)
take-resized [] (suc n) (suc k) h l = absurd (omega arith)
take-resized (x ∷ block) (suc n) (suc k) h l =
    ap (λ t. x ∷ t) (take-resized block n k (omega arith) (omega arith))

-- An allocator that hands out zeros.
abbrev pub zeroing : Allocator
zeroing = record {
  malloc = zeros;
  realloc = resized;
  length-malloc = length-zeros;
  length-realloc = length-resized;
  take-realloc = take-resized;
}
