-- ===== src/Websocket.antt =====
-- WebSocket frames and the accept key: source/websocket.c and include/mx/websocket.h.
-- A pointer is the memory from it on, and `none` is an access outside that memory.
pub mod Masking
pub mod Header
pub mod Parsing
pub mod RoundTrip
pub mod Unmask
mod Tests
use c_mx.Common.{ℕ, zero, suc, ◌+◌, ◌*◌, ◌/◌, ◌%◌, ◌^◌, bit_and, bit_or, bit_xor, Bool, true, false}
use c_mx.Common.{
  Option, none, some, List, [], ◌∷◌, ltb, leb, ◌==◌, if◌then◌else◌, ◌>>=◌, u64, get_elem?,
}
use c_mx.Common.{Memory, store, memcpy, take, ◌++◌}
use c_mx.Libc.{codes}

-- The loop of `ws_apply_mask` from index `i` on, with `n` rounds left.
pub mask_loop : Memory → ℕ → List ℕ → ℕ → ℕ → Option Memory
mask_loop memory bytes mask i zero = some memory
mask_loop memory bytes mask i (suc n) = do
  byte ← get_elem? memory (bytes + i)
  key ← get_elem? mask (i % 4)
  memory' ← store memory (bytes + i) (bit_xor byte key)
  mask_loop memory' bytes mask (i + 1) n

-- `ws_apply_mask`, where `bytes` is the index of the argument `data`.
unfoldable pub apply_mask : Memory → ℕ → ℕ → List ℕ → Option Memory
apply_mask memory bytes n mask = mask_loop memory bytes mask 0 n

-- `struct ws_frame`
pub record WsFrame : Type 0 where
  pub fin_flag : ℕ
  pub opcode : ℕ
  pub mask_flag : ℕ
  pub payload_length : ℕ
  pub mask_offset : ℕ
  pub payload_offset : ℕ

-- What `ws_parse_frame` returns, with what it stores through its two pointers.
pub record Answer : Type 0 where
  pub complete : Bool
  pub frame : WsFrame
  pub frame_length : ℕ

-- The size of the extended length field that the 7-bit length announces.
pub extended_size : ℕ → ℕ
extended_size n = if n == 126 then 2 else if n == 127 then 8 else 0

-- The flags, the opcode, the 7-bit length and the offsets.
pub read_flags : ℕ → ℕ → WsFrame
read_flags first second =
    let masked = (if bit_and second 128 == 128 then 1 else 0) in
    let short_length = bit_and second 127 in
    record {
      fin_flag = if bit_and first 128 == 128 then 1 else 0;
      opcode = bit_and first 15;
      mask_flag = masked;
      payload_length = short_length;
      mask_offset = 2 + extended_size short_length;
      payload_offset = 2 + (if masked == 0 then 0 else 4) + extended_size short_length;
    }

-- Two and eight bytes put together, the most significant first.
pub word16 : Memory → Option ℕ
word16 bytes = do
  b0 ← get_elem? bytes 2
  b1 ← get_elem? bytes 3
  some (bit_or (u64 (b0 * 2 ^ 8)) b1)

pub word64 : Memory → Option ℕ
word64 bytes = do
  b0 ← get_elem? bytes 2
  b1 ← get_elem? bytes 3
  b2 ← get_elem? bytes 4
  b3 ← get_elem? bytes 5
  b4 ← get_elem? bytes 6
  b5 ← get_elem? bytes 7
  b6 ← get_elem? bytes 8
  b7 ← get_elem? bytes 9
  let w1 = bit_or (u64 (b0 * 2 ^ 56)) (u64 (b1 * 2 ^ 48))
  let w3 = bit_or (bit_or w1 (u64 (b2 * 2 ^ 40))) (u64 (b3 * 2 ^ 32))
  let w5 = bit_or (bit_or w3 (u64 (b4 * 2 ^ 24))) (u64 (b5 * 2 ^ 16))
  some (bit_or (bit_or w5 (u64 (b6 * 2 ^ 8))) b7)

pub payload_size : WsFrame → Memory → Option ℕ
payload_size frame bytes =
    if frame.payload_length == 126
    then word16 bytes
    else if frame.payload_length == 127
    then word64 bytes
    else some frame.payload_length

-- The rest of `ws_parse_frame`, from the second check of the length on. There the expected length
-- is the payload's offset.
pub parse_rest : WsFrame → Memory → ℕ → Option Answer
parse_rest frame bytes length =
    if ltb length frame.payload_offset
    then some (record { complete = false; frame = frame; frame_length = frame.payload_offset })
    else (payload_size frame bytes >>= λ n.
        let expected = u64 (frame.payload_offset + n) in
        some (record {
          complete = if ltb length expected then false else true;
          frame = record frame { payload_length = n };
          frame_length = expected;
        }))

-- `ws_parse_frame`, given what `frame` held before.
pub parse_frame : WsFrame → Memory → ℕ → Option Answer
parse_frame frame bytes length =
    if ltb length 2
    then some (record { complete = false; frame = frame; frame_length = 2 })
    else (get_elem? bytes 0 >>= λ first.
        get_elem? bytes 1 >>= λ second. parse_rest (read_flags first second) bytes length)

-- The three forms of the length field that `ws_format_frame` writes: the offset behind it, and the
-- memory.
pub put_length64 : Memory → ℕ → ℕ → Option (ℕ × Memory)
put_length64 m0 mask_flag length = do
  m1 ← store m0 1 (bit_or 127 mask_flag)
  m2 ← store m1 2 (bit_and (length / 2 ^ 56) 255)
  m3 ← store m2 3 (bit_and (length / 2 ^ 48) 255)
  m4 ← store m3 4 (bit_and (length / 2 ^ 40) 255)
  m5 ← store m4 5 (bit_and (length / 2 ^ 32) 255)
  m6 ← store m5 6 (bit_and (length / 2 ^ 24) 255)
  m7 ← store m6 7 (bit_and (length / 2 ^ 16) 255)
  m8 ← store m7 8 (bit_and (length / 2 ^ 8) 255)
  m9 ← store m8 9 (bit_and length 255)
  some (10, m9)

pub put_length16 : Memory → ℕ → ℕ → Option (ℕ × Memory)
put_length16 m0 mask_flag length = do
  m1 ← store m0 1 (bit_or 126 mask_flag)
  m2 ← store m1 2 (bit_and (length / 2 ^ 8) 255)
  m3 ← store m2 3 (bit_and length 255)
  some (4, m3)

pub put_length7 : Memory → ℕ → ℕ → Option (ℕ × Memory)
put_length7 m0 mask_flag length = do m1 ← store m0 1 (bit_or length mask_flag); some (2, m1)

pub put_length : Memory → ℕ → ℕ → Option (ℕ × Memory)
put_length memory mask_flag length =
    if ltb 65535 length
    then put_length64 memory mask_flag length
    else if leb 126 length
    then put_length16 memory mask_flag length
    else put_length7 memory mask_flag length

unfoldable pub flag_of : Option (List ℕ) → ℕ
flag_of none = 0
flag_of (some mask) = 128

pub put_mask : ℕ → Memory → Option (List ℕ) → Option (ℕ × Memory)
put_mask offset memory none = some (offset, memory)
put_mask offset memory (some mask) = do
  memory' ← memcpy memory offset mask 4
  some (offset + 4, memory')

pub mask_payload : Memory → ℕ → ℕ → Option (List ℕ) → Option Memory
mask_payload memory offset length none = some memory
mask_payload memory offset length (some mask) = apply_mask memory offset length mask

pub put_payload : Memory → ℕ → Option (List ℕ) → List ℕ → ℕ → Option Memory
put_payload memory offset mask bytes length =
    if length == 0
    then some memory
    else (memcpy memory offset bytes length >>= λ memory'. mask_payload memory' offset length mask)

-- `ws_format_frame`: the frame's size, and the memory.
pub format_frame : Memory → ℕ → Option (List ℕ) → List ℕ → ℕ → Option (ℕ × Memory)
format_frame buffer flags mask bytes length = do
  m1 ← store buffer 0 flags
  (behind_length, m2) ← put_length m1 (flag_of mask) length
  (frame_offset, m3) ← put_mask behind_length m2 mask
  m4 ← put_payload m3 frame_offset mask bytes length
  some (u64 (frame_offset + length), m4)

-- `ws_calculate_accept_key`, with the result of `SHA1` and that of `base64_encode`, which fails where its
-- buffer is too small.
unfoldable pub calculate_accept_key :
    (List ℕ → List ℕ) → (List ℕ → Option (List ℕ)) → List ℕ → ℕ → Option (List ℕ)
calculate_accept_key sha1 base64 reqkey reqkey_len =
    base64 (sha1 (take reqkey_len reqkey ++ codes "258EAFA5-E914-47DA-95CA-C5AB0DC85B11"))
