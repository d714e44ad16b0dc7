-- ===== src/Mqtt/Frame.antt =====
-- Frames: `mqtt_parse_frame`, `mqtt_format_fixed_header` and `mqtt_format_frame` of source/mqtt.c.
pub mod RoundTrip
use c_mx.Common.{ℕ, ◌+◌, ◌-◌, ◌*◌, ◌/◌, ◌^◌, true, Option, some, List, get_elem?, u64, ltb}
use c_mx.Common.{if◌then◌else◌, bit_and, bit_or, ◌>>=◌}
use c_mx.Common.{memcpy}
use c_mx.Mqtt.Put.{Memory, Writer, ◌>>◌, only_if, put_byte}
use c_mx.Mqtt.Length.{Decoded, need_more, invalid, decoded, decode_length, encode_length}

-- `struct mqtt_fixed_header`
pub record FixedHeader : Type 0 where
  pub kind : ℕ
  pub flags : ℕ
  pub body_length : ℕ

-- What `mqtt_parse_frame` returns: 0, -1, or the offset of the body.
pub data FrameResult : Type 0 where
  wait failed : FrameResult
  body_at : ℕ → FrameResult

-- The header and `*frame_length` as the call leaves them, and its result.
pub record Parsed : Type 0 where
  pub header : FixedHeader
  pub frame_length : ℕ
  pub result : FrameResult

-- `frame->type` and `frame->flags` from the first byte.
abbrev pub read_kind : FixedHeader → ℕ → FixedHeader
read_kind header b = record header { kind = bit_and (b / 2 ^ 4) 0xf; flags = bit_and b 0xf }

-- What follows the decoding of the length, by its three kinds of result.
pub finish_frame : FixedHeader → ℕ → ℕ → Decoded → Parsed
finish_frame header frame_length length need_more = record {
  header = header;
  frame_length = u64 (length + 1);
  result = wait;
}
finish_frame header frame_length length invalid = record {
  header = header;
  frame_length = frame_length;
  result = failed;
}
finish_frame header frame_length length (decoded length_bytes value) =
    let body_offset = 1 + length_bytes in
    let expected = u64 (body_offset + value) in
    record {
      header = record header { body_length = value };
      frame_length = expected;
      result = if ltb length expected then wait else body_at body_offset;
    }

-- `header` and `frame_length` are the contents of the out-parameters before the call.
unfoldable pub parse_frame : FixedHeader → ℕ → Memory → ℕ → ℕ → Option Parsed
unfolding finish_frame
parse_frame header frame_length memory at length =
    if ltb length 2
    then some (record { header = header; frame_length = 2; result = wait })
    else (get_elem? memory at >>= λ b. decode_length memory (at + 1) (length - 1) >>= λ r.
        some (finish_frame (read_kind header b) frame_length length r))

-- `buffer[0] = (type << 4) | flags`, and the length behind it.
unfoldable pub format_fixed_header : ℕ → ℕ → ℕ → Writer
format_fixed_header kind flags body_length =
    put_byte (bit_or (kind * 2 ^ 4) flags) >> encode_length true body_length

-- `memcpy(buffer, body_data, body_length)`, with all of the length.
pub copy_body : List ℕ → ℕ → Writer
copy_body body body_length at memory = do
  memory' ← memcpy memory at body body_length
  some (body_length, memory')

unfoldable pub format_frame : ℕ → ℕ → List ℕ → ℕ → Writer
unfolding copy_body
format_frame kind flags body body_length =
    format_fixed_header kind flags body_length
    >> only_if (ltb 0 body_length) (copy_body body body_length)
