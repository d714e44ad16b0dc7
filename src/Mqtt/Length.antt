-- ===== src/Mqtt/Length.antt =====
-- The remaining-length field: `mqtt_decode_length` and `mqtt_encode_length` of source/mqtt.c.
pub mod Digits
pub mod RoundTrip
use c_mx.Common.{ℕ, zero, suc, ◌+◌, ◌*◌, ◌/◌, ◌%◌, Bool, true, false, Option, none, some}
use c_mx.Common.{get_elem?, u8, u64, ltb, leb, ◌==◌, if◌then◌else◌, bit_and, bit_or, ◌>>=◌}
use c_mx.Mqtt.Put.{Memory, Writer, ◌>>◌, done, put_byte}

-- The three kinds of result of `mqtt_decode_length`: 0, -1, or the count of bytes that it read;
-- `*value` is set in the last case only.
pub data Decoded : Type 0 where
  need_more invalid : Decoded
  decoded : ℕ → ℕ → Decoded

abbrev pub max_length_size : ℕ
max_length_size = 4

-- The `do … while` loop at index `idx`; `length` is what is left of the caller's length. `none` is
-- a read outside memory, or a loop of more than `fuel` rounds.
-- `multiplier` is an `int`: it is multiplied four times at most, and stays below 2 ^ 31.
pub decode_loop : ℕ → Memory → ℕ → ℕ → ℕ → ℕ → ℕ → Option Decoded
decode_loop zero memory at length idx multiplier val = none
decode_loop (suc fuel) memory at length idx multiplier val =
    let read = get_elem? memory (at + idx) >>= λ c.
    let val' = u64 (val + bit_and c 127 * multiplier) in
    let rest = decode_loop fuel memory at length (idx + 1) (multiplier * 128) val' in
    if bit_and c 128 == 0 then some (decoded (idx + 1) val') else rest in
    if leb length idx
    then some need_more
    else if leb max_length_size idx
    then some invalid
    else read

-- Five rounds: the fifth returns by one of the first two tests.
unfoldable pub decode_length : Memory → ℕ → ℕ → Option Decoded
unfolding decode_loop
decode_length memory at length = decode_loop 5 memory at length 0 1 0

-- `idx++` with no store.
skip_byte : Writer
skip_byte at memory = some (1, memory)

-- `buffer[idx] = d`, which the loop skips for a null buffer.
pub put_digit : Bool → ℕ → Writer
put_digit true d = put_byte d
put_digit false d = skip_byte

-- The `do … while` loop of `mqtt_encode_length` with `fuel` rounds at most (`done` stands for
-- running out); `has_buffer` is false where `buffer` is null.
pub encode_loop : ℕ → Bool → ℕ → Writer
encode_loop zero has_buffer value = done
encode_loop (suc fuel) has_buffer value =
    let d = u8 (value % 128) in
    let value' = value / 128 in
    let next = put_digit has_buffer (bit_or d 0x80) >> encode_loop fuel has_buffer value' in
    if ltb 0 value' then next else put_digit has_buffer d

-- A `size_t` has ten groups of seven bits at most.
pub encode_length : Bool → ℕ → Writer
encode_length has_buffer value = encode_loop 10 has_buffer value
