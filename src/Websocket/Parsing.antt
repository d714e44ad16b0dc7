-- ===== src/Websocket/Parsing.antt =====
-- What `ws_parse_frame` of source/websocket.c reads in a header that `ws_format_frame` writes.
use c_mx.Common.{
  ℕ, ◌+◌, ◌*◌, ◌/◌, ◌%◌, ◌^◌, ◌≤◌, ◌<◌, bit_and, bit_or, bit_and_255, bit_and_127, bit_and_15,
}
use c_mx.Common.{
  bit_and_128, bit_or_128, bit_or_shifted, bit_or_zero, true, false, Bool-cases, inl, inr,
}
use c_mx.Common.{Option, none, some, List, ◌∷◌, ltb, leb, ◌==◌, if◌then◌else◌}
use c_mx.Common.{u64, arith, ◌≡◌, refl, ap, ◌∙◌, Memory}
use c_mx.Websocket.{
  WsFrame, Answer, read_flags, extended_size, word16, word64, payload_size, parse_rest,
}
use c_mx.Websocket.{flag_of}
use c_mx.Websocket.Header.{mask_size}

or_lem : (k q r r' : ℕ) → r' ≡ r → r < 2 ^ k → bit_or (q * 2 ^ k) r' ≡ q * 2 ^ k + r
or_lem k q r r' e h = ap (bit_or (q * 2 ^ k)) e ∙ bit_or_shifted k q r h

pub word16_lem :
    (n first second : ℕ) (rest : List ℕ)
    → n < 2 ^ 16
    → word16 (first ∷ second ∷ bit_and (n / 2 ^ 8) 255 ∷ bit_and n 255 ∷ rest) ≡ some n
unfolding word16
word16_lem n first second rest h =
    let high : u64 (bit_and (n / 2 ^ 8) 255 * 2 ^ 8) ≡ n / 2 ^ 8 * 2 ^ 8 =
      omega (arith, bit_and_255 (n / 2 ^ 8)) in
    let low = or_lem 8 (n / 2 ^ 8) (n % 2 ^ 8) (bit_and n 255) (bit_and_255 n) (omega arith) in
    rw (high, low) (ap some (omega arith))

-- One more byte behind those that are put together already.
join :
    (k n high byte : ℕ)
    → high ≡ n / 2 ^ (k + 8)
    → byte ≡ n / 2 ^ k % 256
    → n / 2 ^ (k + 8) * 2 ^ (k + 8) + n / 2 ^ k % 256 * 2 ^ k ≡ n / 2 ^ k * 2 ^ k
    → n / 2 ^ k % 256 * 2 ^ k < 2 ^ (k + 8)
    → n / 2 ^ k % 256 * 2 ^ k < 2 ^ 64
    → bit_or (high * 2 ^ (k + 8)) (u64 (byte * 2 ^ k)) ≡ n / 2 ^ k * 2 ^ k
join k n high byte eh eb sum h w =
    let r = n / 2 ^ k % 256 * 2 ^ k in
    let low : u64 (byte * 2 ^ k) ≡ r = ap (λ t. u64 (t * 2 ^ k)) eb ∙ omega arith in
    ap (λ t. bit_or (t * 2 ^ (k + 8)) (u64 (byte * 2 ^ k))) eh
    ∙ or_lem (k + 8) (n / 2 ^ (k + 8)) r (u64 (byte * 2 ^ k)) low h
    ∙ sum

pub word64_lem :
    (n first second : ℕ) (rest : List ℕ)
    → n < 2 ^ 64
    → word64 (
        first
        ∷ second
        ∷ bit_and (n / 2 ^ 56) 255
        ∷ bit_and (n / 2 ^ 48) 255
        ∷ bit_and (n / 2 ^ 40) 255
        ∷ bit_and (n / 2 ^ 32) 255
        ∷ bit_and (n / 2 ^ 24) 255
        ∷ bit_and (n / 2 ^ 16) 255
        ∷ bit_and (n / 2 ^ 8) 255
        ∷ bit_and n 255
        ∷ rest)
      ≡ some n
unfolding word64
word64_lem n first second rest h =
    let b : (k : ℕ) → bit_and (n / 2 ^ k) 255 ≡ n / 2 ^ k % 256 = λ k. bit_and_255 (n / 2 ^ k) in
    let s56 : u64 (bit_and (n / 2 ^ 56) 255 * 2 ^ 56) ≡ n / 2 ^ 56 * 2 ^ 56 = omega (arith, b 56) in
    let low = or_lem 8 (n / 2 ^ 8) (n % 2 ^ 8) (bit_and n 255) (bit_and_255 n) (omega arith) in
    rw
      (
        s56,
        join 48 n (n / 2 ^ 56) (bit_and (n / 2 ^ 48) 255) refl (b 48) (omega arith) (omega arith)
            (omega arith),
        join 40 n (n / 2 ^ 48) (bit_and (n / 2 ^ 40) 255) refl (b 40) (omega arith) (omega arith)
            (omega arith),
        join 32 n (n / 2 ^ 40) (bit_and (n / 2 ^ 32) 255) refl (b 32) (omega arith) (omega arith)
            (omega arith),
        join 24 n (n / 2 ^ 32) (bit_and (n / 2 ^ 24) 255) refl (b 24) (omega arith) (omega arith)
            (omega arith),
        join 16 n (n / 2 ^ 24) (bit_and (n / 2 ^ 16) 255) refl (b 16) (omega arith) (omega arith)
            (omega arith),
        join 8 n (n / 2 ^ 16) (bit_and (n / 2 ^ 8) 255) refl (b 8) (omega arith) (omega arith)
            (omega arith),
        low,
      )
      (ap some (omega arith))

-- The frame that the first two bytes announce, where `x` stands in the 7-bit length.
abbrev pub announced : ℕ → Option (List ℕ) → ℕ → WsFrame
announced flags mask x = record {
  fin_flag = flags / 128;
  opcode = flags % 16;
  mask_flag = mask_size mask / 4;
  payload_length = x;
  mask_offset = 2 + extended_size x;
  payload_offset = 2 + mask_size mask + extended_size x;
}

pub read_flags_lem :
    (flags x : ℕ) (mask : Option (List ℕ))
    → flags < 256
    → x < 128
    → read_flags flags (bit_or x (flag_of mask)) ≡ announced flags mask x
unfolding read_flags flag_of
read_flags_lem flags x none h l =
    let fin : (if bit_and flags 128 == 128 then 1 else 0) ≡ flags / 128 =
      ground (arith, bit_and_128 flags h) in
    let clear : ◌≡◌ {A = ℕ} (if bit_and x 128 == 128 then 1 else 0) 0 =
      ground (arith, bit_and_128 x (omega arith)) in
    let low : bit_and x 127 ≡ x = omega (arith, bit_and_127 x) in
    rw (bit_or_zero x, fin, bit_and_15 flags, clear, low)
read_flags_lem flags x (some mask) h l =
    let fin : (if bit_and flags 128 == 128 then 1 else 0) ≡ flags / 128 =
      ground (arith, bit_and_128 flags h) in
    let set : ◌≡◌ {A = ℕ} (if bit_and (x + 128) 128 == 128 then 1 else 0) 1 =
      ground (arith, bit_and_128 (x + 128) (omega arith)) in
    let low : bit_and (x + 128) 127 ≡ x = omega (arith, bit_and_127 (x + 128)) in
    rw (bit_or_128 x l, fin, bit_and_15 flags, set, low)

-- The answer to `len` bytes of data, where the frame announced by the first two has its payload
-- at `po` and `n` bytes of it.
pub parse_rest_lem :
    (frame : WsFrame) (bytes : Memory) (len n : ℕ)
    → payload_size frame bytes ≡ some n
    → frame.payload_offset + n < 2 ^ 64
    → (a : Answer) × (parse_rest frame bytes len ≡ some a)
      × (a.complete ≡ leb (frame.payload_offset + n) len)
      × (frame.payload_offset + n ≤ len
          → a ≡ record {
            complete = true;
            frame = record frame { payload_length = n };
            frame_length = frame.payload_offset + n;
          })
unfolding parse_rest
parse_rest_lem frame bytes len n e small = elim (Bool-cases (ltb len frame.payload_offset)) [
  | inl short ↦ (
    record { complete = false; frame = frame; frame_length = frame.payload_offset },
    rw short,
    ground arith,
    λ h. absurd (ground arith),
  )
  | inr header ↦
      let total : u64 (frame.payload_offset + n) ≡ frame.payload_offset + n = omega arith in
      (
        record {
          complete = if ltb len (frame.payload_offset + n) then false else true;
          frame = record frame { payload_length = n };
          frame_length = frame.payload_offset + n;
        },
        rw (header, e, total),
        ground arith,
        λ h. let enough : ltb len (frame.payload_offset + n) ≡ false = ground arith in rw enough,
      )
]
