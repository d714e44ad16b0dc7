-- ===== src/Mqtt/Packets/Laws.antt =====
-- From the bytes that a formatter writes and that a parser reads to the two run one after the
-- other on a buffer.
use c_mx.Common.{ℕ, ◌+◌, ◌≤◌, Option, some, List, ◌++◌, length, length-append, drop, append_assoc}
use c_mx.Common.{if◌then◌else◌, ltb, arith, ◌≡◌, ap, ◌∙◌}
use c_mx.Mqtt.Put.{Memory, Writer}
use c_mx.Mqtt.Put.Laws.{Writes, Writes-append}
use c_mx.Mqtt.Get.{Slice, bytes_of, Reader}
use c_mx.Mqtt.Get.Laws.{Reads, bytes_of_lem}
use c_mx.Mqtt.Packets.{ParseResult, failed, consumed, finish}

-- The buffer after `bytes` were written behind `front`.
abbrev pub filled : List ℕ → List ℕ → List ℕ → Memory
filled front room bytes = front ++ (bytes ++ drop (length bytes) room)

-- A parser that is told the length `len` gets `a` from a body of `size` bytes, and fails if `len`
-- is more than `size`.
abbrev pub Parses :
    {A : Type 0} → (Memory → ℕ → ℕ → Option (A × ParseResult)) → Memory → ℕ → ℕ → A → Type 0
Parses parse memory at size a =
    (len : ℕ) → parse memory at len ≡ some (a, if ltb size len then failed else consumed size)

-- The parser at `at` on what the formatter left there, whatever length it is told.
pub finish-Writes :
    {A : Type 0} {r : Reader A} {w : Writer} {bytes : List ℕ} {a : A} {at : ℕ} {size : ℕ}
    (front room : List ℕ)
    → Writes w bytes
    → Reads r at bytes a
    → at ≡ length front
    → length bytes ≡ size
    → size ≤ length room
    → (w at (front ++ room) ≡ some (size, filled front room bytes))
      × Parses (finish r) (filled front room bytes) at size a
finish-Writes {bytes} {at} front room hw hr e s l = (
  rw (← s) (Writes-append hw front room at e (omega arith)),
  λ len. unfold finish in rw (hr.run front (drop (length bytes) room) e, s),
)

-- A slice that points into the written bytes.
pub slice-filled :
    (front room bytes pre str post : List ℕ) (s : Slice)
    → bytes ≡ pre ++ (str ++ post)
    → s.start ≡ length front + length pre
    → s.len ≡ length str
    → bytes_of (filled front room bytes) s ≡ str
slice-filled front room bytes pre str post s shape e l =
    ap (λ m. bytes_of m s) moved
    ∙ bytes_of_lem (front ++ pre) str (post ++ back) s (omega (arith, length-append front pre)) l
  where
    back : List ℕ
    back = drop (length bytes) room

    moved : front ++ (bytes ++ back) ≡ (front ++ pre) ++ (str ++ (post ++ back))
    moved = rw (
      append_assoc front pre (str ++ (post ++ back)),
      ← append_assoc str post back,
      ← append_assoc pre (str ++ post) back,
      ← shape,
    )
