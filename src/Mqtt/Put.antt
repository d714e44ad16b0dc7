-- ===== src/Mqtt/Put.antt =====
-- The writers of source/mqtt.c: `mqtt_put_byte`, `mqtt_put_short`, `mqtt_put_data`, `mqtt_put_string`.
pub mod Laws
pub use c_mx.Common.{Memory}
use c_mx.Common.{store, memcpy}
use c_mx.Common.{ℕ, zero, suc, ◌+◌, ◌%◌, ◌/◌, ◌^◌, Bool, true, false, Option, none, some}
use c_mx.Common.{List, [], ◌∷◌, length, take, u8, u16, ltb, if◌then◌else◌, bit_and, ◌>>=◌}

-- A writer gets the address that it writes to, and returns how many bytes it wrote.
abbrev pub Writer : Type 0
Writer = ℕ → Memory → Option (ℕ × Memory)

-- `offset += w(buffer + offset, …); offset += v(buffer + offset, …);`
infixr 5 ◌>>◌
unfoldable pub ◌>>◌ : Writer → Writer → Writer
◌>>◌ w v at memory = do
  (n, memory') ← w at memory
  (k, memory'') ← v (at + n) memory'
  some (n + k, memory'')

-- Nothing left to write.
unfoldable pub done : Writer
done at memory = some (0, memory)

-- `if (test) offset += w(buffer + offset, …);`
abbrev pub only_if : Bool → Writer → Writer
only_if test w = if test then w else done

-- Writes at an optional source: `if (ptr) …`, and nothing for the null pointer.
abbrev pub only_some : Option (List ℕ) → (List ℕ → Writer) → Writer
only_some none w = done
only_some (some bytes) w = w bytes

pub put_byte : ℕ → Writer
put_byte value at memory = do memory' ← store memory at (u8 value); some (1, memory')

-- `(unsigned char)((value >> 8) & 0xFF)` and `(unsigned char)(value & 0xFF)`
pub put_short : ℕ → Writer
put_short value at memory = do
  memory' ← store memory at (u8 (bit_and (value / 2 ^ 8) 0xff))
  memory'' ← store memory' (at + 1) (u8 (bit_and value 0xff))
  some (2, memory'')

-- The parameter `data_len` is an `unsigned short`, so the caller's length is cut to 16 bits.
pub put_data : List ℕ → ℕ → Writer
put_data bytes data_len at memory = do
  memory' ← memcpy memory at bytes (u16 data_len)
  some (u16 data_len, memory')

-- A C string is the list of its bytes before the terminating zero. `mqtt_put_short` and
-- `mqtt_put_data` get its `strlen` cut to 16 bits.
pub put_string : List ℕ → Writer
put_string str =
    put_short (u16 (length str)) >> only_if (ltb 0 (length str)) (put_data str (length str))
