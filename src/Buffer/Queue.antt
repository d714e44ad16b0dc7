-- ===== src/Buffer/Queue.antt =====
-- Sequences of calls on a buffer, against the queue of bytes that a client sees.
use c_mx.Common.{
  ℕ, ◌+◌, ◌^◌, ◌≤◌, ◌<◌, some, Option, List, [], ◌∷◌, ◌++◌, length, take, drop, ◌>>=◌,
}
use c_mx.Common.{arith, ◌≡◌, refl, ap, ◌∙◌}
use c_mx.Buffer.{Allocator, Buffer, append, copy, take_chunk, cut, reset, clean, rewind, resize}
use c_mx.Buffer.Valid.{IsValid, contents, length-contents, rewind-IsRewound, resize-IsRewound}
use c_mx.Buffer.Refine.{
  append_refines, copy_refines, take_chunk_refines, cut_refines, fresh_refines,
}

-- A client's calls: `buffer_append`, `buffer_take`, `buffer_cut`, `buffer_copy`, `buffer_resize`, `buffer_rewind`,
-- `buffer_reset` and `buffer_clean`.
pub data Call : Type 0 where
  push : List ℕ → Call
  pop : ℕ → Call
  discard : ℕ → Call
  replace : Buffer → Call
  reserve : ℕ → Call
  to_front clear wipe : Call

-- The bytes that the calls of `buffer_take` hand out, call by call, and the buffer at the end.
pub run : Allocator → Buffer → List Call → Option (List (List ℕ) × Buffer)
run a b [] = some ([], b)
run a b (push bytes ∷ calls) = append a b bytes (length bytes) >>= λ b'. run a b' calls
run a b (pop n ∷ calls) = do
  (out, b') ← take_chunk b n
  (outs, last) ← run a b' calls
  some (out ∷ outs, last)
run a b (discard n ∷ calls) = run a (cut b n) calls
run a b (replace other ∷ calls) = copy a b other >>= λ b'. run a b' calls
run a b (reserve n ∷ calls) = resize a b n >>= λ b'. run a b' calls
run a b (to_front ∷ calls) = rewind b >>= λ b'. run a b' calls
run a b (clear ∷ calls) = run a (reset b) calls
run a b (wipe ∷ calls) = run a (clean b) calls

-- The same calls on a list of bytes.
unfoldable pub outputs : List ℕ → List Call → List (List ℕ)
outputs q [] = []
outputs q (push bytes ∷ calls) = outputs (q ++ bytes) calls
outputs q (pop n ∷ calls) = take n q ∷ outputs (drop n q) calls
outputs q (discard n ∷ calls) = outputs (drop n q) calls
outputs q (replace other ∷ calls) = outputs (contents other) calls
outputs q (reserve n ∷ calls) = outputs q calls
outputs q (to_front ∷ calls) = outputs q calls
outputs q (clear ∷ calls) = outputs [] calls
outputs q (wipe ∷ calls) = outputs [] calls

unfoldable pub left_over : List ℕ → List Call → List ℕ
left_over q [] = q
left_over q (push bytes ∷ calls) = left_over (q ++ bytes) calls
left_over q (pop n ∷ calls) = left_over (drop n q) calls
left_over q (discard n ∷ calls) = left_over (drop n q) calls
left_over q (replace other ∷ calls) = left_over (contents other) calls
left_over q (reserve n ∷ calls) = left_over q calls
left_over q (to_front ∷ calls) = left_over q calls
left_over q (clear ∷ calls) = left_over [] calls
left_over q (wipe ∷ calls) = left_over [] calls

-- What a client has to see to: what it asks for fits a `size_t` together with what is stored, it cuts off no more
-- than there is, and copies valid buffers.
unfoldable pub IsAllowed : List ℕ → List Call → Type 0
IsAllowed q [] = Unit
IsAllowed q (push bytes ∷ calls) = (length q + length bytes < 2 ^ 64) × IsAllowed (q ++ bytes) calls
IsAllowed q (pop n ∷ calls) = IsAllowed (drop n q) calls
IsAllowed q (discard n ∷ calls) = (n ≤ length q) × IsAllowed (drop n q) calls
IsAllowed q (replace other ∷ calls) =
    IsValid other × (length q + other.len < 2 ^ 64) × IsAllowed (contents other) calls
IsAllowed q (reserve n ∷ calls) = (length q + n < 2 ^ 64) × IsAllowed q calls
IsAllowed q (to_front ∷ calls) = IsAllowed q calls
IsAllowed q (clear ∷ calls) = IsAllowed [] calls
IsAllowed q (wipe ∷ calls) = IsAllowed [] calls

length-queue : {b : Buffer} {q : List ℕ} → IsValid b → contents b ≡ q → length q ≡ b.len
length-queue {b} {q} v e = omega (arith, length-contents v, ap (λ (t : List ℕ). length t) e)

-- The same on the queue of bytes that a buffer holds.
run_from :
    (a : Allocator) (calls : List Call) {b : Buffer} {q : List ℕ}
    → IsValid b
    → contents b ≡ q
    → IsAllowed q calls
    → (b' : Buffer) × (run a b calls ≡ some (outputs q calls, b'))
      × IsValid b'
      × (contents b' ≡ left_over q calls)
unfolding run outputs left_over IsAllowed
run_from a [] {b} v e h = (b, refl, v, e)
run_from a (push bytes ∷ calls) {b} {q} v e (room, h) =
    let (b1, runs, v1, holds) =
      append_refines a v bytes (omega (arith, room, length-queue {b = b} {q = q} v e)) in
    let (b2, rest, v2, ends) =
      run_from a calls {q = q ++ bytes} v1 (holds ∙ ap (λ t. t ++ bytes) e) h in
    (b2, rw (runs, rest), v2, ends)
run_from a (pop n ∷ calls) {b} {q} v e h =
    let (b1, runs, v1, holds) = take_chunk_refines v n in
    let (b2, rest, v2, ends) = run_from a calls {q = drop n q} v1 (holds ∙ ap (drop n) e) h in
    (b2, rw (runs, rest, e), v2, ends)
run_from a (discard n ∷ calls) {b} {q} v e (there, h) =
    let (v1, holds) = cut_refines v n (omega (arith, there, length-queue {b = b} {q = q} v e)) in
    run_from a calls {q = drop n q} v1 (holds ∙ ap (drop n) e) h
run_from a (replace other ∷ calls) {b} {q} v e (w, room, h) =
    let (b1, runs, v1, holds) =
      copy_refines a v w (omega (arith, room, length-queue {b = b} {q = q} v e)) in
    let (b2, rest, v2, ends) = run_from a calls {q = contents other} v1 holds h in
    (b2, rw (runs, rest), v2, ends)
run_from a (reserve n ∷ calls) {b} {q} v e (room, h) =
    let (b1, runs, r, _) =
      resize-IsRewound a v n (omega (arith, room, length-queue {b = b} {q = q} v e)) in
    let (b2, rest, v2, ends) = run_from a calls {q = q} r.valid (r.same_bytes ∙ e) h in
    (b2, rw (runs, rest), v2, ends)
run_from a (to_front ∷ calls) {b} {q} v e h =
    let (b1, runs, r, _) = rewind-IsRewound v in
    let (b2, rest, v2, ends) = run_from a calls {q = q} r.valid (r.same_bytes ∙ e) h in
    (b2, rw (runs, rest), v2, ends)
run_from a (clear ∷ calls) {b} v e h =
    let (_, (v1, holds), _) = fresh_refines a 0 (omega arith) v in run_from a calls v1 holds h
run_from a (wipe ∷ calls) {b} v e h =
    let (_, _, (v1, holds)) = fresh_refines a 0 (omega arith) v in run_from a calls v1 holds h

-- Calls to append, take, cut, copy, resize, rewind, reset and clean on a valid buffer, in any order, where what is appended, copied or
-- asked for fits a `size_t` together with what is stored, no more is cut off than there is, and the buffers copied are
-- valid: none accesses memory outside the block, what is taken out is what the queue of bytes would give, and the buffer
-- ends valid and holding what the queue would hold.
pub run_refines :
    (a : Allocator) (calls : List Call) (b : Buffer)
    → IsValid b
    → IsAllowed (contents b) calls
    → (b' : Buffer) × (run a b calls ≡ some (outputs (contents b) calls, b'))
      × IsValid b'
      × (contents b' ≡ left_over (contents b) calls)
run_refines a calls b v = run_from a calls v refl
