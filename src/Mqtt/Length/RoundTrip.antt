-- ===== src/Mqtt/Length/RoundTrip.antt =====
-- `mqtt_decode_length` against `mqtt_encode_length`, and what the decoder says of any bytes.
use c_mx.Common.{ℕ, zero, suc, ◌+◌, ◌*◌, ◌^◌, ◌≤◌, ◌<◌, true, false, some, List, ◌++◌}
use c_mx.Common.{
  length, drop, leb, get_elem?, get_elem?_in, u64, bit_and, bit_and_127, Bool-cases, ◌==◌, inl, inr,
}
use c_mx.Common.{if◌then◌else◌, arith, ◌≡◌, refl, ap, ◌∙◌}
use native.Mathlib.Nat.{pow-suc, one-le-pow}
use c_mx.Mqtt.Put.{Memory}
use c_mx.Mqtt.Put.Laws.{Writes-append}
use c_mx.Mqtt.Length.{Decoded, need_more, invalid, decoded, decode_loop, decode_length}
use c_mx.Mqtt.Length.{encode_length}
use c_mx.Mqtt.Length.Digits.{groups, groups_room, length-groups, length-groups_large}
use c_mx.Mqtt.Length.Digits.{encode_loop-Writes, encode_loop_counts, decode_too_long}
use c_mx.Mqtt.Length.Digits.{encode_length-Writes, decode_length-groups}

-- A buffer with room for four bytes at index `at`, into which a length below 2^28 is encoded:
-- 1 to 4 bytes are written, the encoder run on a null buffer counts as many, and the decoder that
-- is given `len` bytes of the result reads the length back if all bytes of the field are
-- among them, and else asks for more.
pub decode-encode :
    (front room : List ℕ) (at value : ℕ)
    → at ≡ length front
    → 4 ≤ length room
    → value < 2 ^ 28
    → (size : ℕ) × (memory : Memory) × (encode_length true value at (front ++ room)
        ≡ some (size, memory))
      × (encode_length false value at (front ++ room) ≡ some (size, front ++ room))
      × (1 ≤ size)
      × (size ≤ 4)
      × ((len : ℕ)
          → decode_length memory at len
            ≡ some (if leb size len then decoded size value else need_more))
decode-encode front room at value e fits v = (
  length bytes,
  front ++ (bytes ++ drop (length bytes) room),
  Writes-append (encode_length-Writes value v) front room at e (omega (arith, size)),
  unfold encode_length in
      rw (
        encode_loop_counts 9 value at (front ++ room) (omega arith),
        groups_room 3 9 value (omega arith) v,
      ),
  size.0,
  size.1,
  λ len.
      decode_length-groups value v (front ++ (bytes ++ drop (length bytes) room)) at len front
        (drop (length bytes) room) e refl,
)
  where
    bytes : List ℕ
    bytes = groups 3 value

    size : (1 ≤ length bytes) × (length bytes ≤ 4)
    size = length-groups 3 value

-- A length of 2^28 or more: the encoder writes a field of more than four bytes, from which the
-- decoder never reads a number.
pub decode-encode_too_large :
    (front room : List ℕ) (at value : ℕ)
    → at ≡ length front
    → 10 ≤ length room
    → 2 ^ 28 ≤ value
    → value < 2 ^ 64
    → (size : ℕ) × (memory : Memory) × (encode_length true value at (front ++ room)
        ≡ some (size, memory))
      × (5 ≤ size)
      × ((len : ℕ) → decode_length memory at len ≡ some (if leb len 4 then need_more else invalid))
unfolding encode_length
decode-encode_too_large front room at value e fits low high = (
  length bytes,
  front ++ (bytes ++ drop (length bytes) room),
  Writes-append (encode_loop-Writes 9 value (omega arith)) front room at e
      (omega (arith, length-groups 9 value)),
  length-groups_large 4 9 value (omega arith) low,
  λ len.
      unfold decode_length in
      decode_too_long (front ++ (bytes ++ drop (length bytes) room)) at len
        (drop (length bytes) room) 4 9 5 value 0 1 0 front (omega arith) (omega arith) (omega arith)
        low (omega arith) (omega arith) refl,
)
  where
    bytes : List ℕ
    bytes = groups 9 value

-- What a result of the decoder that was given `len` bytes says.
abbrev pub Says : ℕ → Decoded → Type 0
Says len need_more = len ≤ 4
Says len invalid = 5 ≤ len
Says len (decoded size value) = (1 ≤ size) × (size ≤ 4) × (size ≤ len) × (value < 2 ^ 28)

next_bound :
    (c multiplier val : ℕ)
    → val < multiplier
    → u64 (val + bit_and c 127 * multiplier) < multiplier * 128
next_bound c multiplier val small = grind (arith, bit_and_127 c)

factor_le : (x y n : ℕ) → x * y ≡ n → 1 ≤ y → x ≤ n
factor_le x y n e h = grind arith

decode_goes_on :
    (fuel : ℕ) (memory : Memory) (at len idx multiplier val c : ℕ)
    → leb len idx ≡ false
    → idx < 4
    → get_elem? memory (at + idx) ≡ some c
    → (bit_and c 128 == 0) ≡ false
    → decode_loop (suc fuel) memory at len idx multiplier val
      ≡ decode_loop fuel memory at len
          (idx + 1)
          (multiplier * 128)
          (u64 (val + bit_and c 127 * multiplier))
unfolding decode_loop
decode_goes_on fuel memory at len idx multiplier val c e i read more = ground arith

decode_loop-Says :
    (k fuel : ℕ) (memory : Memory) (at len idx multiplier val : ℕ)
    → at + len ≤ length memory
    → idx + k ≡ 4
    → k < fuel
    → multiplier * 128 ^ k ≡ 2 ^ 28
    → val < multiplier
    → (r : Decoded) × (decode_loop fuel memory at len idx multiplier val ≡ some r) × Says len r
decode_loop-Says k zero memory at len idx multiplier val room ik kf mult small =
    absurd (omega arith)
decode_loop-Says zero (suc fuel) memory at len idx multiplier val room ik kf mult small =
    elim (Bool-cases (leb len idx)) [
      | inl e ↦ (need_more, unfold decode_loop in ground arith, ground arith)
      | inr e ↦ (invalid, unfold decode_loop in ground arith, ground arith)
    ]
decode_loop-Says (suc k) (suc fuel) memory at len idx multiplier val room ik kf mult small =
    elim (Bool-cases (leb len idx)) [
      | inl e ↦ (need_more, unfold decode_loop in ground arith, ground arith)
      | inr e ↦
          let (c, read) = get_elem?_in memory (at + idx) (ground arith) in
          let val' = u64 (val + bit_and c 127 * multiplier) in
          let bound : val' < multiplier * 128 = next_bound c multiplier val small in
          let left : multiplier * 128 * 128 ^ k ≡ 2 ^ 28 =
            omega (arith, ap (λ (t : ℕ). multiplier * t) (pow-suc 128 k)) in
          let below : multiplier * 128 ≤ 2 ^ 28 =
            factor_le _ _ _ left (one-le-pow k 128 (omega arith)) in
          elim (Bool-cases (bit_and c 128 == 0)) [
            | inl last ↦ (
              decoded (idx + 1) val',
              unfold decode_loop in ground arith,
              (omega arith, omega arith, ground arith, omega arith),
            )
            | inr more ↦
                let (r, runs, says) =
                  decode_loop-Says k fuel memory at len (idx + 1) (multiplier * 128) val' room
                    (omega arith) (omega arith) left bound in
                (
                  r,
                  decode_goes_on fuel memory at len idx multiplier val c e (omega arith) read more
                      ∙ runs,
                  says,
                )
          ]
    ]

-- With `len` readable bytes at hand the decoder ends and reads no byte outside them. It asks for
-- more only if they are 4 or fewer, fails only if they are more, and otherwise returns a
-- field of 1 to 4 of these bytes and a value below 2^28.
pub decode_length-Says :
    (memory : Memory) (at len : ℕ)
    → at + len ≤ length memory
    → (r : Decoded) × (decode_length memory at len ≡ some r) × Says len r
unfolding decode_length
decode_length-Says memory at len room =
    decode_loop-Says 4 5 memory at len 0 1 0 room (omega arith) (omega arith) refl (omega arith)
