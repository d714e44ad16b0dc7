-- ===== src/Websocket/RoundTrip.antt =====
-- A frame that `ws_format_frame` of source/websocket.c writes, as `ws_parse_frame` reads it.
use c_mx.Common.{
  ℕ, ◌+◌, ◌/◌, ◌%◌, ◌^◌, ◌≤◌, ◌<◌, bit_and, bit_or, true, false, Bool-cases, inl, inr,
}
use c_mx.Common.{Option, some, List, [], ◌∷◌, ◌++◌, length, ltb, leb, ◌==◌}
use c_mx.Common.{
  take, drop, take-append-drop, length-take, length-drop, drop-append, append_assoc, length-append,
}
use c_mx.Common.{arith, ◌≡◌, refl, sym, ap, ◌∙◌, Memory}
use c_mx.Websocket.{
  WsFrame, Answer, payload_size, parse_frame, format_frame, flag_of, extended_size,
}
use c_mx.Websocket.Header.{
  length_bytes, mask_bytes, mask_size, payload_bytes, length-payload_bytes, frame_bytes,
}
use c_mx.Websocket.Header.{parts_lem}
use c_mx.Websocket.Parsing.{word16_lem, word64_lem, announced, read_flags_lem, parse_rest_lem}

-- The frame that describes a payload of `n` bytes.
abbrev pub described : ℕ → Option (List ℕ) → ℕ → WsFrame
described flags mask n = record {
  fin_flag = flags / 128;
  opcode = flags % 16;
  mask_flag = mask_size mask / 4;
  payload_length = n;
  mask_offset = 1 + length (length_bytes (flag_of mask) n);
  payload_offset = 1 + length (length_bytes (flag_of mask) n) + mask_size mask;
}

-- What the first two bytes announce, once the rest of the header gives the payload's size.
parse_announced :
    (fr : WsFrame) (flags x n len : ℕ) (mask : Option (List ℕ)) (rest : List ℕ)
    → flags < 256
    → x < 128
    → 2 + mask_size mask + extended_size x + n < 2 ^ 64
    → payload_size (announced flags mask x) (flags ∷ bit_or x (flag_of mask) ∷ rest) ≡ some n
    → (a : Answer) × (parse_frame fr (flags ∷ bit_or x (flag_of mask) ∷ rest) len ≡ some a)
      × (a.complete ≡ leb (2 + mask_size mask + extended_size x + n) len)
      × (2 + mask_size mask + extended_size x + n ≤ len
          → a ≡ record {
            complete = true;
            frame = record (announced flags mask x) { payload_length = n };
            frame_length = 2 + mask_size mask + extended_size x + n;
          })
unfolding parse_frame
parse_announced fr flags x n len mask rest h l small e = elim (Bool-cases (ltb len 2)) [
  | inl short ↦ (
    record { complete = false; frame = fr; frame_length = 2 },
    rw short,
    ground arith,
    λ h. absurd (ground arith),
  )
  | inr enough ↦
      rw (enough, read_flags_lem flags x mask h l)
        (parse_rest_lem (announced flags mask x) (flags ∷ bit_or x (flag_of mask) ∷ rest) len n e
          small)
]

-- The length field of a frame, taken apart: the 7-bit length, and the bytes that it announces.
record HasLength (mask : Option (List ℕ)) (n : ℕ) : Type 0 where
  short : ℕ
  extended : List ℕ
  bytes_lem : length_bytes (flag_of mask) n ≡ bit_or short (flag_of mask) ∷ extended
  fits : short < 128
  size_lem : extended_size short ≡ length extended
  read_lem :
      (flags second : ℕ) (rest : List ℕ)
      → payload_size (announced flags mask short) (flags ∷ second ∷ (extended ++ rest)) ≡ some n

length_bytes-HasLength : (mask : Option (List ℕ)) (n : ℕ) → n < 2 ^ 64 → HasLength mask n
unfolding length_bytes extended_size payload_size
length_bytes-HasLength mask n h = elim (Bool-cases (ltb 65535 n)) [
  | inl long ↦ record {
    short = 127;
    extended =
        bit_and (n / 2 ^ 56) 255
        ∷ bit_and (n / 2 ^ 48) 255
        ∷ bit_and (n / 2 ^ 40) 255
        ∷ bit_and (n / 2 ^ 32) 255
        ∷ bit_and (n / 2 ^ 24) 255
        ∷ bit_and (n / 2 ^ 16) 255
        ∷ bit_and (n / 2 ^ 8) 255
        ∷ bit_and n 255
        ∷ [];
    bytes_lem = rw long;
    fits = omega arith;
    size_lem = refl;
    read_lem = λ flags second rest. word64_lem n flags second rest h;
  }
  | inr not_long ↦ elim (Bool-cases (leb 126 n)) [
    | inl middle ↦ record {
      short = 126;
      extended = bit_and (n / 2 ^ 8) 255 ∷ bit_and n 255 ∷ [];
      bytes_lem = rw (not_long, middle);
      fits = omega arith;
      size_lem = refl;
      read_lem = λ flags second rest. word16_lem n flags second rest (ground arith);
    }
    | inr low ↦
        let not_126 : (n == 126) ≡ false = ground arith in
        let not_127 : (n == 127) ≡ false = ground arith in
        record {
          short = n;
          extended = [];
          bytes_lem = rw (not_long, low);
          fits = ground arith;
          size_lem = rw (not_126, not_127);
          read_lem = λ flags second rest. rw (not_126, not_127);
        }
  ]
]

-- Parsing what starts with a frame's header.
header_lem :
    (fr : WsFrame) (flags n len size : ℕ) (mask : Option (List ℕ)) (rest : List ℕ)
    → flags < 256
    → size ≡ 1 + length (length_bytes (flag_of mask) n) + mask_size mask + n
    → size < 2 ^ 64
    → (a : Answer) × (parse_frame fr (flags ∷ (length_bytes (flag_of mask) n ++ rest)) len ≡ some a)
      × (a.complete ≡ leb size len)
      × (size ≤ len
          → a ≡ record { complete = true; frame = described flags mask n; frame_length = size })
header_lem fr flags n len size mask rest h total small =
    let l = length_bytes-HasLength mask n (omega arith) in
    let field : 1 + length (length_bytes (flag_of mask) n) ≡ 2 + extended_size l.short =
      omega (arith, ap (λ (t : List ℕ). length t) l.bytes_lem, l.size_lem) in
    let at_mask : 2 + extended_size l.short ≡ 1 + length (length_bytes (flag_of mask) n) =
      sym field in
    let at_payload : 2 + mask_size mask + extended_size l.short
        ≡ 1 + length (length_bytes (flag_of mask) n) + mask_size mask =
      omega (arith, field) in
    let whole : 2 + mask_size mask + extended_size l.short + n ≡ size = omega (arith, field) in
    let (a, runs, done, answer) =
      parse_announced fr flags l.short n len mask (l.extended ++ rest) h l.fits
        (omega (arith, whole)) (l.read_lem flags (bit_or l.short (flag_of mask)) rest) in
    (
      a,
      ap (λ t. parse_frame fr (flags ∷ (t ++ rest)) len) l.bytes_lem ∙ runs,
      done ∙ ap (λ t. leb t len) whole,
      λ fits.
          answer (omega (arith, whole))
          ∙ ap
              (λ t.
                answer_at t (2 + extended_size l.short)
                  (2 + mask_size mask + extended_size l.short))
              whole
          ∙ ap (λ t. answer_at size t (2 + mask_size mask + extended_size l.short)) at_mask
          ∙ ap (answer_at size (1 + length (length_bytes (flag_of mask) n))) at_payload,
    )
  where
    answer_at : ℕ → ℕ → ℕ → Answer
    answer_at size m p = record {
      complete = true;
      frame = record {
        fin_flag = flags / 128;
        opcode = flags % 16;
        mask_flag = mask_size mask / 4;
        payload_length = n;
        mask_offset = m;
        payload_offset = p;
      };
      frame_length = size;
    }

-- Formatting over old memory of the frame's size.
pub format_frame_lem :
    (flags : ℕ) (old back bytes : List ℕ) (mask : Option (List ℕ))
    → length old ≡ length (frame_bytes flags mask bytes)
    → length (mask_bytes mask) ≡ mask_size mask
    → length (frame_bytes flags mask bytes) < 2 ^ 64
    → format_frame (old ++ back) flags mask bytes (length bytes)
      ≡ some (length (frame_bytes flags mask bytes), frame_bytes flags mask bytes ++ back)
format_frame_lem flags [] back bytes mask l m small = absurd (omega arith)
format_frame_lem flags (o ∷ old) back bytes mask l m small =
    let sizes = length_bytes (flag_of mask) (length bytes) in
    let k = length sizes in
    let r = drop k old in
    let old2 = take (mask_size mask) r in
    let old3 = drop (mask_size mask) r in
    let parts : length old ≡ k + (mask_size mask + length bytes) = omega (
      arith,
      l,
      m,
      length-append sizes (mask_bytes mask ++ payload_bytes mask bytes),
      length-append (mask_bytes mask) (payload_bytes mask bytes),
      length-payload_bytes mask bytes,
    ) in
    let apart : old ++ back ≡ take k old ++ (old2 ++ (old3 ++ back)) =
      ap (λ t. t ++ back) (sym (take-append-drop k old))
      ∙ append_assoc (take k old) r back
      ∙ ap (λ t. take k old ++ (t ++ back)) (sym (take-append-drop (mask_size mask) r))
      ∙ ap (λ t. take k old ++ t) (append_assoc old2 old3 back) in
    ap (λ t. format_frame (o ∷ t) flags mask bytes (length bytes)) apart
    ∙ parts_lem flags o (take k old) old2 old3 back bytes mask
        (omega (arith, parts, length-take k old))
        (omega (arith, parts, length-take (mask_size mask) r, length-drop k old))
        (omega (arith, parts, length-drop (mask_size mask) r, length-drop k old)) m small

-- The size of a frame, from its parts.
pub length-frame_bytes :
    (flags : ℕ) (bytes : List ℕ) (mask : Option (List ℕ))
    → length (mask_bytes mask) ≡ mask_size mask
    → length (frame_bytes flags mask bytes)
      ≡ 1 + length (length_bytes (flag_of mask) (length bytes)) + mask_size mask + length bytes
length-frame_bytes flags bytes mask m = omega (
  arith,
  m,
  length-append (length_bytes (flag_of mask) (length bytes))
      (mask_bytes mask ++ payload_bytes mask bytes),
  length-append (mask_bytes mask) (payload_bytes mask bytes),
  length-payload_bytes mask bytes,
)

-- Parsing a whole frame, whatever follows it.
pub parse_frame-frame_bytes :
    (fr : WsFrame) (flags len : ℕ) (back bytes : List ℕ) (mask : Option (List ℕ))
    → flags < 256
    → length (mask_bytes mask) ≡ mask_size mask
    → length (frame_bytes flags mask bytes) < 2 ^ 64
    → length (frame_bytes flags mask bytes) ≤ len
    → parse_frame fr (frame_bytes flags mask bytes ++ back) len
      ≡ some (record {
        complete = true;
        frame = described flags mask (length bytes);
        frame_length = length (frame_bytes flags mask bytes);
      })
parse_frame-frame_bytes fr flags len back bytes mask byte m small enough =
    let sizes = length_bytes (flag_of mask) (length bytes) in
    let (a, runs, done, answer) =
      header_lem fr flags (length bytes) len (length (frame_bytes flags mask bytes)) mask
        ((mask_bytes mask ++ payload_bytes mask bytes) ++ back) byte
        (length-frame_bytes flags bytes mask m) small in
    ap (λ t. parse_frame fr (flags ∷ t) len)
      (append_assoc sizes (mask_bytes mask ++ payload_bytes mask bytes) back)
    ∙ runs
    ∙ ap some (answer enough)

-- For flags of one byte, no mask or one of 4 bytes, and a payload such that the frame is below 2^64
-- bytes, which fits the buffer's first part `old`: the frame is written over that part and nothing
-- else, what is returned is its size, and whatever `frame` held before, parsing waits for more on
-- every shorter length, and on any other finds a complete frame of that size with the flags, the
-- payload's length and its place, where the payload stands, masked if there is a mask.
pub answer-format_frame :
    (flags : ℕ) (old back bytes : List ℕ) (mask : Option (List ℕ))
    → flags < 256
    → length old ≡ length (frame_bytes flags mask bytes)
    → length (mask_bytes mask) ≡ mask_size mask
    → length (frame_bytes flags mask bytes) < 2 ^ 64
    → (memory : Memory) × (format_frame (old ++ back) flags mask bytes (length bytes)
        ≡ some (length old, memory ++ back))
      × (drop (described flags mask (length bytes)).payload_offset memory
          ≡ payload_bytes mask bytes)
      × ((fr : WsFrame) (len : ℕ)
          → (a : Answer) × (parse_frame fr (memory ++ back) len ≡ some a)
            × (a.complete ≡ leb (length old) len)
            × (length old ≤ len
                → a ≡ record {
                  complete = true;
                  frame = described flags mask (length bytes);
                  frame_length = length old;
                }))
answer-format_frame flags old back bytes mask byte l m small =
    let sizes = length_bytes (flag_of mask) (length bytes) in
    let whole : length old ≡ 1 + length sizes + mask_size mask + length bytes = omega (
      arith,
      l,
      m,
      length-append sizes (mask_bytes mask ++ payload_bytes mask bytes),
      length-append (mask_bytes mask) (payload_bytes mask bytes),
      length-payload_bytes mask bytes,
    ) in
    (
      frame_bytes flags mask bytes,
      format_frame_lem flags old back bytes mask l m small
          ∙ ap (λ t. some (t, frame_bytes flags mask bytes ++ back)) (sym l),
      ap (drop (1 + length sizes + mask_size mask))
            (sym (append_assoc (flags ∷ sizes) (mask_bytes mask) (payload_bytes mask bytes)))
          ∙ drop-append ((flags ∷ sizes) ++ mask_bytes mask) (payload_bytes mask bytes)
              (1 + length sizes + mask_size mask)
              (omega (arith, m, length-append (flags ∷ sizes) (mask_bytes mask))),
      λ fr len.
          let (a, runs, done, answer) =
            header_lem fr flags (length bytes) len (length old) mask
              ((mask_bytes mask ++ payload_bytes mask bytes) ++ back) byte whole
              (omega (arith, l)) in
          (
            a,
            ap (λ t. parse_frame fr (flags ∷ t) len)
                  (append_assoc sizes (mask_bytes mask ++ payload_bytes mask bytes) back)
                ∙ runs,
            done,
            answer,
          ),
    )
