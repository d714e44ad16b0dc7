-- ===== src/Common/Blocks.antt =====
-- Blocks of memory: a block is a list of bytes and a pointer an index into it. A store or a read
-- outside the block is undefined in C; here it is `none`.
use Prim.Native.Nat.{ℕ, zero, suc, ◌+◌, ◌≤◌}
use mathlib.Core.Path.{◌≡◌, refl, sym, ap, ◌∙◌}
use mathlib.Core.Option.{Option, none, some}
use mathlib.Core.List.{List, [], ◌∷◌, ◌++◌, append_assoc}
use native.Mathlib.Omega.{arith}
use c_mx.Common.Tests.{◌>>=◌, leb, if◌then◌else◌}
use c_mx.Common.Lists.{length, take, drop, length-append, length-take, length-drop, take_all}
use c_mx.Common.Lists.{take-append-drop}

abbrev pub Memory : Type 0
Memory = List ℕ

-- `memory[at] = value`
pub store : Memory → ℕ → ℕ → Option Memory
store [] at value = none
store (x ∷ xs) zero value = some (value ∷ xs)
store (x ∷ xs) (suc at) value = do ys ← store xs at value; some (x ∷ ys)

-- `memcpy(memory + at, bytes, n)`: each of the `n` bytes has to be there.
pub memcpy : Memory → ℕ → List ℕ → ℕ → Option Memory
memcpy memory at bytes zero = some memory
memcpy memory at [] (suc n) = none
memcpy memory at (b ∷ bytes) (suc n) = do
  memory' ← store memory at b
  memcpy memory' (at + 1) bytes n

-- The `n` bytes from `at` on, as `memcpy` and `memmove` read them.
unfoldable pub load_bytes : Memory → ℕ → ℕ → Option (List ℕ)
load_bytes memory at n =
    if leb (at + n) (length memory) then some (take n (drop at memory)) else none

-- `memmove(memory + to, memory + from, n)`
unfoldable pub memmove : Memory → ℕ → ℕ → ℕ → Option Memory
memmove memory to from n = do bytes ← load_bytes memory from n; memcpy memory to bytes n

pub store_lem :
    (front back : List ℕ) (x v at : ℕ)
    → at ≡ length front
    → store (front ++ (x ∷ back)) at v ≡ some (front ++ (v ∷ back))
unfolding store
store_lem [] back x v zero e = refl
store_lem [] back x v (suc at) e = absurd (omega arith)
store_lem (y ∷ front) back x v zero e = absurd (omega arith)
store_lem (y ∷ front) back x v (suc at) e = rw (store_lem front back x v at (omega arith))

pub memcpy_lem :
    (front old back bytes : List ℕ) (n at : ℕ)
    → at ≡ length front
    → n ≡ length old
    → n ≤ length bytes
    → memcpy (front ++ (old ++ back)) at bytes n ≡ some (front ++ (take n bytes ++ back))
unfolding memcpy
memcpy_lem front [] back bytes zero at e l h = refl
memcpy_lem front (o ∷ old) back bytes zero at e l h = absurd (omega arith)
memcpy_lem front old back [] (suc n) at e l h = absurd (omega arith)
memcpy_lem front [] back (b ∷ bytes) (suc n) at e l h = absurd (omega arith)
memcpy_lem front (o ∷ old) back (b ∷ bytes) (suc n) at e l h =
    rw
      (
        store_lem front (old ++ back) o b at e,
        ← append_assoc front (b ∷ []) (old ++ back),
        ← append_assoc front (b ∷ []) (take n bytes ++ back),
      )
      (memcpy_lem (front ++ (b ∷ [])) old back bytes n (at + 1)
        (omega (arith, length-append front (b ∷ []))) (omega arith) (omega arith))

-- A copy into the middle of a block.
pub memcpy_splice :
    (memory bytes : List ℕ) (at n : ℕ)
    → at + n ≤ length memory
    → n ≡ length bytes
    → memcpy memory at bytes n ≡ some (take at memory ++ (bytes ++ drop n (drop at memory)))
memcpy_splice memory bytes at n room e =
    let front = take at memory in
    let rest = drop at memory in
    let apart : memory ≡ front ++ (take n rest ++ drop n rest) =
      sym (ap (λ t. front ++ t) (take-append-drop n rest) ∙ take-append-drop at memory) in
    ap (λ m. memcpy m at bytes n) apart
    ∙ memcpy_lem front (take n rest) (drop n rest) bytes n at (omega (arith, length-take at memory))
        (omega (arith, length-take n rest, length-drop at memory)) (omega arith)
    ∙ ap (λ t. some (front ++ (t ++ drop n rest))) (take_all bytes n (omega arith))
