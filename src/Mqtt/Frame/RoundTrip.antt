-- ===== src/Mqtt/Frame/RoundTrip.antt =====
-- Frames that are parsed after they were formatted.
use c_mx.Common.{ℕ, suc, ◌+◌, ◌-◌, ◌*◌, ◌/◌, ◌^◌, ◌≤◌, ◌<◌, false, some, List, [], ◌∷◌, ◌++◌}
use c_mx.Common.{length, length-append, drop, append_assoc, take_all}
use c_mx.Common.{get_elem?-append, ltb, Bool-cases, lt→ltb, le→ltb, bit_and, bit_or, bit_and_15}
use c_mx.Common.{bit_or_shifted, arith, inl, inr, subst, ◌≡◌, refl, sym, ap, ◌∙◌}
use c_mx.Mqtt.Put.{Memory, only_if}
use c_mx.Common.{memcpy_lem}
use c_mx.Mqtt.Put.Laws.{Writes, >>-Writes, Writes-append, done-Writes, put_byte-Writes}
use c_mx.Mqtt.Get.{Slice, bytes_of}
use c_mx.Mqtt.Get.Laws.{bytes_of_lem}
use c_mx.Mqtt.Length.Digits.{groups, length-groups, verdict}
use c_mx.Mqtt.Length.Digits.{encode_length-Writes, decode_length-groups}
use c_mx.Mqtt.Frame.{FixedHeader, Parsed, wait, body_at, finish_frame, parse_frame}
use c_mx.Mqtt.Frame.{format_fixed_header, copy_body, format_frame}

-- The bytes of a fixed header: the kind and the flags in one, and the groups of the body's length.
abbrev pub header_bytes : ℕ → ℕ → ℕ → List ℕ
header_bytes kind flags body_length = (kind * 16 + flags) ∷ groups 3 body_length

pub format_fixed_header-Writes :
    (kind flags body_length : ℕ)
    → kind < 16
    → flags < 16
    → body_length < 2 ^ 28
    → Writes (format_fixed_header kind flags body_length) (header_bytes kind flags body_length)
unfolding format_fixed_header
format_fixed_header-Writes kind flags body_length k f b =
    let first : bit_or (kind * 2 ^ 4) flags ≡ kind * 16 + flags = bit_or_shifted 4 kind flags f in
    rw first (
      >>-Writes (put_byte-Writes (kind * 16 + flags) (omega arith))
        (encode_length-Writes body_length b))

copy_body-Writes : (body : List ℕ) → Writes (copy_body body (length body)) body
unfolding copy_body
copy_body-Writes body = record {
  run = λ front old back at e l. rw (
    memcpy_lem front old back body (length body) at e (omega arith) (omega arith),
    take_all body (length body) (omega arith),
  );
}

body-Writes :
    (body : List ℕ) → Writes (only_if (ltb 0 (length body)) (copy_body body (length body))) body
body-Writes [] = done-Writes
body-Writes (b ∷ body) =
    rw (lt→ltb 0 (length (b ∷ body)) (omega arith)) (copy_body-Writes (b ∷ body))

pub format_frame-Writes :
    (kind flags : ℕ) (body : List ℕ)
    → kind < 16
    → flags < 16
    → length body < 2 ^ 28
    → Writes
        (format_frame kind flags body (length body))
        (header_bytes kind flags (length body) ++ body)
unfolding format_frame
format_frame-Writes kind flags body k f b =
    >>-Writes (format_fixed_header-Writes kind flags (length body) k f b) (body-Writes body)

-- `mqtt_parse_frame` on memory that holds a frame at `at`.
module _ (kind flags : ℕ) (body front back : List ℕ) (at : ℕ) (k : kind < 16) (f : flags < 16)
    (b : length body < 2 ^ 28) (e : at ≡ length front) where
  abbrev pub header_size : ℕ
  header_size = length (header_bytes kind flags (length body))

  abbrev pub framed : Memory
  framed = front ++ ((header_bytes kind flags (length body) ++ body) ++ back)

  abbrev pub header : FixedHeader
  header = record { kind = kind; flags = flags; body_length = length body }

  -- The call behind its first two reads.
  parse_frame_step :
      (before : FixedHeader) (frame_length len : ℕ)
      → 2 ≤ len
      → parse_frame before frame_length framed at len
        ≡ some (
            finish_frame
              (record before { kind = kind; flags = flags })
              frame_length
              len
              (verdict (len - 1) (length (groups 3 (length body))) (length body)))
  unfolding parse_frame
  parse_frame_step before frame_length len two =
      let long : ltb len 2 ≡ false = le→ltb len 2 two in
      let lead = kind * 16 + flags in
      let lead_kind : bit_and (lead / 2 ^ 4) 0xf ≡ kind =
        omega (arith, bit_and_15 (lead / 2 ^ 4)) in
      let lead_flags : bit_and lead 0xf ≡ flags = omega (arith, bit_and_15 lead) in
      let behind : framed ≡ (front ++ (lead ∷ [])) ++ (groups 3 (length body) ++ (body ++ back)) =
        ap (λ t. front ++ (lead ∷ t)) (append_assoc (groups 3 (length body)) body back)
        ∙ sym (append_assoc front (lead ∷ []) (groups 3 (length body) ++ (body ++ back))) in
      rw (
        long,
        get_elem?-append front ((header_bytes kind flags (length body) ++ body) ++ back) at 0
            (omega arith),
        decode_length-groups (length body) b framed (at + 1) (len - 1) (front ++ (lead ∷ []))
            (body ++ back) (omega (arith, length-append front (lead ∷ []))) behind,
        lead_kind,
        lead_flags,
      )

  -- With all bytes of the frame at hand.
  pub parse_frame_whole :
      (before : FixedHeader) (frame_length len : ℕ)
      → header_size + length body ≤ len
      → parse_frame before frame_length framed at len
        ≡ some (record {
          header = header;
          frame_length = header_size + length body;
          result = body_at header_size;
        })
  parse_frame_whole before frame_length len h =
      parse_frame_step before frame_length len (omega (arith, length-groups 3 (length body)))
      ∙ unfold finish_frame in ap some (ground (arith, length-groups 3 (length body)))

  -- With fewer.
  parse_frame_part :
      (before : FixedHeader) (frame_length len : ℕ)
      → len < header_size + length body
      → (p : Parsed) × (parse_frame before frame_length framed at len ≡ some p)
        × (p.result ≡ wait)
        × (len < p.frame_length)
        × (p.frame_length ≤ header_size + length body)
  parse_frame_part before frame_length len h = elim (Bool-cases (ltb len 2)) [
    | inl short ↦ (
      record { header = before; frame_length = 2; result = wait },
      unfold parse_frame in rw short,
      refl,
      ground arith,
      omega (arith, length-groups 3 (length body)),
    )
    | inr long ↦ (
      finish_frame (record before { kind = kind; flags = flags }) frame_length len
          (verdict (len - 1) (length (groups 3 (length body))) (length body)),
      parse_frame_step before frame_length len (ground arith),
      unfold finish_frame in ground (arith, length-groups 3 (length body)),
      unfold finish_frame in ground (arith, length-groups 3 (length body)),
      unfold finish_frame in ground (arith, length-groups 3 (length body)),
    )
  ]

-- A frame of kind and flags below 16 and a body shorter than 2^28, formatted into a buffer with
-- room for it. The parser that is given the frame's `size` bytes or more, whatever the
-- out-parameters held, returns the kind, the flags, the body's length, the frame's length and the
-- offset at which the body stands. Given fewer it waits, and the frame length that it asks
-- for is more than it has, and never more than the frame has.
pub parse_frame-format_frame :
    (kind flags : ℕ) (body front room : List ℕ) (at : ℕ)
    → kind < 16
    → flags < 16
    → length body < 2 ^ 28
    → at ≡ length front
    → length body + 5 ≤ length room
    → (size : ℕ) × (memory : Memory) × (format_frame kind flags body
          (length body)
          at
          (front ++ room)
        ≡ some (size, memory))
      × (bytes_of memory (record { start = at + (size - length body); len = length body }) ≡ body)
      × ((before : FixedHeader) (frame_length len : ℕ)
          → size ≤ len
          → parse_frame before frame_length memory at len
            ≡ some (record {
              header = record { kind = kind; flags = flags; body_length = length body };
              frame_length = size;
              result = body_at (size - length body);
            }))
      × ((before : FixedHeader) (frame_length len : ℕ)
          → len < size
          → (p : Parsed) × (parse_frame before frame_length memory at len ≡ some p)
            × (p.result ≡ wait)
            × (len < p.frame_length)
            × (p.frame_length ≤ size))
parse_frame-format_frame kind flags body front room at k f b e fits = (
  length bytes,
  front ++ (bytes ++ back),
  Writes-append (format_frame-Writes kind flags body k f b) front room at e
      (omega (arith, size, length-groups 3 (length body))),
  subst (λ m. bytes_of m body_slice ≡ body) (sym shape)
      (bytes_of_lem (front ++ head) body back body_slice
        (omega (arith, size, length-append front head)) refl),
  λ before frame_length len h.
      let offset : length bytes - length body ≡ suc (length (groups 3 (length body))) =
        omega (arith, size) in
      rw (offset, size)
        (parse_frame_whole kind flags body front back at k f b e before frame_length len
          (omega (arith, size))),
  λ before frame_length len h. rw size (
      parse_frame_part kind flags body front back at k f b e before frame_length len
        (omega (arith, size))),
)
  where
    bytes : List ℕ
    bytes = header_bytes kind flags (length body) ++ body

    back : List ℕ
    back = drop (length bytes) room

    size : length bytes ≡ suc (length (groups 3 (length body))) + length body
    size = length-append (header_bytes kind flags (length body)) body

    head : List ℕ
    head = header_bytes kind flags (length body)

    body_slice : Slice
    body_slice = record { start = at + (length bytes - length body); len = length body }

    shape : front ++ (bytes ++ back) ≡ (front ++ head) ++ (body ++ back)
    shape =
        ap (λ t. front ++ t) (append_assoc head body back)
        ∙ sym (append_assoc front head (body ++ back))
