-- ===== src/Mqtt/Get.antt =====
-- The readers of source/mqtt.c: `mqtt_get_byte`, `mqtt_get_short`, `mqtt_get_data`, `mqtt_get_string`.
-- They are given a pointer and no length: reading outside the block of memory is `none`.
pub mod Laws
use c_mx.Common.{ℕ, ◌+◌, ◌*◌, ◌^◌, Option, none, some, List, length, take, drop, get_elem?}
use c_mx.Common.{u16, bit_or, Bool, true, false}
use c_mx.Common.{◌>>=◌ as and_then}
use c_mx.Mqtt.Put.{Memory}

-- A pointer into memory with the length stored beside it: `topic` and `topic_len`, for example.
pub record Slice : Type 0 where
  pub start : ℕ
  pub len : ℕ

-- The bytes that a slice points to.
abbrev pub bytes_of : Memory → Slice → List ℕ
bytes_of memory s = take s.len (drop s.start memory)

-- A reader gets the address that it reads from, and returns what goes through its out-parameter
-- and the number of bytes that it went over.
abbrev pub Reader : Type 0 → Type 0
Reader A = Memory → ℕ → Option (A × ℕ)

-- `offset += r(buffer + offset, &a); offset += f(buffer + offset, …);`
infixl 5 ◌>>=◌
unfoldable pub ◌>>=◌ : {A B : Type 0} → Reader A → (A → Reader B) → Reader B
◌>>=◌ r f memory at =
    and_then (r memory at) λ (a, n). and_then (f a memory (at + n)) λ (b, k). some (b, n + k)

-- Reads nothing.
unfoldable pub pure : {A : Type 0} → A → Reader A
pure a memory at = some (a, 0)

unfoldable pub get_byte : Reader ℕ
get_byte memory at = and_then (get_elem? memory at) λ b. some (b, 1)

-- `*value = ((unsigned short)buffer[0]) << 8; *value |= buffer[1];`
unfoldable pub get_short : Reader ℕ
get_short memory at = and_then (get_elem? memory at) λ high.
    and_then (get_elem? memory (at + 1)) λ low. some (u16 (bit_or (u16 (high * 2 ^ 8)) low), 2)

-- Sets a pointer and reads no byte; `data_len` is an `unsigned short`.
unfoldable pub get_data : ℕ → Reader Slice
get_data data_len memory at = some (record { start = at; len = u16 data_len }, u16 data_len)

unfoldable pub get_string : Reader Slice
get_string memory at =
    and_then (get_short memory at) λ (len, n). some (record { start = at + n; len = len }, n + len)
