-- ===== src/Buffer/Tests.antt =====
-- The theorems on buffers at concrete buffers and a concrete allocator.
use c_mx.Common.{some, List, [], ◌∷◌}
use c_mx.Common.{arith, ◌≡◌, refl}
use c_mx.Buffer.{Buffer, append, copy, take_chunk}
use c_mx.Buffer.Valid.{IsValid, contents}
use c_mx.Buffer.Refine.{append_refines, copy_refines, take_chunk_refines}
use c_mx.Buffer.Zeroing.{zeroing}
use c_mx.Buffer.Queue.{
  Call, push, pop, discard, replace, reserve, to_front, clear, wipe, IsAllowed, run, outputs,
  left_over, run_refines,
}

-- Two bytes, with one byte already taken from before them.
abbrev two_left : Buffer
two_left = record { alloc = 9 ∷ 1 ∷ 2 ∷ []; data_at = 1; len = 2; size = 3 }

two_left-IsValid : IsValid two_left
two_left-IsValid = record { block = refl; inside = omega arith; small = omega arith }

append_refines_example :
    (b' : Buffer) × (append zeroing two_left (7 ∷ 8 ∷ []) 2 ≡ some b')
    × IsValid b'
    × (contents b' ≡ 1 ∷ 2 ∷ 7 ∷ 8 ∷ [])
append_refines_example =
    append_refines zeroing {b = two_left} two_left-IsValid (7 ∷ 8 ∷ []) (omega arith)

copy_refines_example :
    (b' : Buffer) × (copy zeroing two_left two_left ≡ some b')
    × IsValid b'
    × (contents b' ≡ 1 ∷ 2 ∷ [])
copy_refines_example =
    copy_refines zeroing {b = two_left} {other = two_left} two_left-IsValid two_left-IsValid
      (omega arith)

take_chunk_refines_example :
    (b' : Buffer) × (take_chunk two_left 5 ≡ some (1 ∷ 2 ∷ [], b'))
    × IsValid b'
    × (contents b' ≡ [])
take_chunk_refines_example = take_chunk_refines {b = two_left} two_left-IsValid 5

abbrev calls : List Call
calls =
    push (5 ∷ 6 ∷ [])
    ∷ pop 3
    ∷ reserve 4
    ∷ push (7 ∷ [])
    ∷ discard 1
    ∷ to_front
    ∷ pop 9
    ∷ replace two_left
    ∷ pop 1
    ∷ clear
    ∷ wipe
    ∷ push (3 ∷ [])
    ∷ []

calls-IsAllowed : IsAllowed (contents two_left) calls
unfolding IsAllowed
calls-IsAllowed = (
  omega arith,
  (omega arith, (omega arith, (omega arith, (two_left-IsValid, omega arith, (omega arith, tt))))),
)

run_refines_example :
    (b' : Buffer) × (run zeroing two_left calls
      ≡ some ((1 ∷ 2 ∷ 5 ∷ []) ∷ (7 ∷ []) ∷ (1 ∷ []) ∷ [], b'))
    × IsValid b'
    × (contents b' ≡ 3 ∷ [])
unfolding outputs left_over
run_refines_example = run_refines zeroing calls two_left two_left-IsValid calls-IsAllowed
