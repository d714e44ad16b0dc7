-- ===== src/Stream/Tests.antt =====
-- A file descriptor that answers as a script says, and runs of the base class on it. No code of its own.
use c_mx.Common.{
  ℕ, zero, suc, ◌≤◌, ◌<◌, min, List, [], ◌∷◌, ◌++◌, length, take, take_all, append-nil, some,
}
use c_mx.Common.{◌⊎◌, inl, inr, arith, ◌≡◌, refl, sym, ap}
use c_mx.Stream.{Result, wrote, again, Stream, st_ready, descriptor, layered, do_flush}
use c_mx.Stream.Writes.{concat, taken, count_of, IsOrdered, FitsAbove, seen_above}
use c_mx.Stream.Order.{layered-IsOrdered}
use c_mx.Stream.Flush.{NoEmpty, IsPatient, do_flush_lem}

-- What the system answers to the writes to come, and the bytes written. An answer is the most that is
-- written, and 0 is `EAGAIN`; without an answer left all is written.
record System : Type 0 where
  answers : List ℕ
  wire : List ℕ

abbrev answer : List ℕ → List ℕ → List ℕ → Result × System
answer [] wire bytes = (wrote (length bytes), record { answers = []; wire = wire ++ bytes })
answer (zero ∷ answers) wire bytes = (again, record { answers = answers; wire = wire })
answer (suc n ∷ answers) wire bytes = (
  wrote (min (suc n) (length bytes)),
  record { answers = answers; wire = wire ++ take (min (suc n) (length bytes)) bytes },
)

abbrev write : System → List ℕ → Result × System
write s bytes = answer s.answers s.wire bytes

abbrev wire_of : System → List ℕ
wire_of s = s.wire

abbrev tries_of : System → ℕ
tries_of s = length s.answers

answer_order :
    (answers wire bytes : List ℕ)
    → (answer answers wire bytes).1.wire ≡ wire ++ taken bytes (answer answers wire bytes).0
answer_order [] wire bytes = ap (λ t. wire ++ t) (sym (take_all bytes (length bytes) (omega arith)))
answer_order (zero ∷ answers) wire bytes = sym (append-nil wire)
answer_order (suc n ∷ answers) wire bytes = refl

answer_count : (answers wire bytes : List ℕ) → count_of (answer answers wire bytes).0 ≤ length bytes
answer_count [] wire bytes = omega arith
answer_count (zero ∷ answers) wire bytes = omega arith
answer_count (suc n ∷ answers) wire bytes = omega arith

-- The scripted descriptor holds nothing that must be short.
abbrev Anything : System → Type 0
Anything s = Unit

write-IsOrdered : IsOrdered System (descriptor write) wire_of Anything
unfolding descriptor
write-IsOrdered = record {
  write_lem = λ s bytes fits small.
      (answer_order s.answers s.wire bytes, answer_count s.answers s.wire bytes, tt);
  handle_lem = λ s fits. (refl, tt);
  flush_lem = λ fuel s s' r fits e. (cc, tt);
}

answer_patience :
    (answers wire bytes : List ℕ)
    → 0 < length bytes
    → let (r, s') = answer answers wire bytes in
      ((r ≡ again) × (tries_of s' < length answers))
      ⊎ ((n : ℕ) × (r ≡ wrote n) × (0 < n) × (n ≤ length bytes) × (tries_of s' ≤ length answers))
answer_patience [] wire bytes h = inr (length bytes, refl, h, omega arith, omega arith)
answer_patience (zero ∷ answers) wire bytes h = inl (refl, omega arith)
answer_patience (suc n ∷ answers) wire bytes h =
    inr (min (suc n) (length bytes), refl, omega arith, omega arith, omega arith)

write-IsPatient : IsPatient System write tries_of
write-IsPatient = record { answer = λ s bytes h. answer_patience s.answers s.wire bytes h }

abbrev at_start : System
at_start = record { answers = 2 ∷ 0 ∷ 1 ∷ 0 ∷ []; wire = [] }

abbrev loaded : Stream
loaded = record { status = st_ready; outgoing = (7 ∷ 8 ∷ 9 ∷ []) ∷ (4 ∷ []) ∷ [] }

loaded_nonempty : NoEmpty loaded.outgoing
unfolding NoEmpty
loaded_nonempty = (omega arith, (omega arith, tt))

do_flush_lem_example :
    (s' : System) × (do_flush (descriptor write) 20 (loaded, at_start)
      ≡ some (wrote 1, (record { status = st_ready; outgoing = [] }, s')))
    × (s'.wire ≡ 7 ∷ 8 ∷ 9 ∷ 4 ∷ [])
unfolding concat
do_flush_lem_example =
    do_flush_lem write tries_of write-IsPatient wire_of Anything 20 loaded at_start write-IsOrdered
      tt loaded_nonempty (omega arith) (omega arith)

-- A stream over a stream over the descriptor.
layered-IsOrdered_example :
    IsOrdered
      (Stream × (Stream × System))
      (layered (layered (descriptor write)))
      (seen_above (seen_above wire_of))
      (FitsAbove (FitsAbove Anything))
layered-IsOrdered_example =
    layered-IsOrdered (layered (descriptor write)) (seen_above wire_of) (FitsAbove Anything)
      (layered-IsOrdered (descriptor write) wire_of Anything write-IsOrdered)
