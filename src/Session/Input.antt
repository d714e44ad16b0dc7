-- ===== src/Session/Input.antt =====
-- The input of an MQTT stream: `stream_mqtt_peek_frame` of source/stream_mqtt.c, with its loop over the frames
-- in the buffer. The buffer is the list of its bytes (see Buffer for the refinement), and a frame is handled
-- where it stands in it.
use c_mx.Common.{
  ℕ, zero, suc, ◌+◌, ◌≤◌, ◌<◌, ◌^◌, Option, none, some, List, [], ◌∷◌, ◌++◌, length, drop,
}
use c_mx.Common.{length-append, drop-append, append_assoc, ◌==◌, if◌then◌else◌, ◌>>=◌}
use c_mx.Common.{false, true, Bool, arith, ◌≡◌, refl, sym, ap, ◌∙◌}
use c_mx.Mqtt.Frame.{FixedHeader, Parsed, FrameResult, wait, failed, body_at, parse_frame}
use c_mx.Mqtt.Frame.RoundTrip.{header_bytes, parse_frame_whole}
use c_mx.Stream.{Arrival, got, nothing, ended}
use c_mx.Session.{Session, World, Item}
use c_mx.Session.Receive.{handle}

-- What `stream_mqtt_peek_frame` returns: the length of the first frame that waits, -1 with `EAGAIN`, or an end.
pub data Peeked : Type 0 where
  waiting : ℕ → Peeked
  empty closed : Peeked

pub peeked : List Item → Peeked
peeked [] = empty
peeked (item ∷ incoming) = waiting (length item.body)

pub nothing_waits : List Item → Bool
nothing_waits [] = true
nothing_waits (item ∷ incoming) = false

-- The local variables that `mqtt_parse_frame` fills, as a round finds them.
pub record Locals : Type 0 where
  pub frame : FixedHeader
  pub frame_length : ℕ

module _ (w : World) (any : Locals) where
  -- One round of the loop over the buffer: `loop` makes the others.
  pub take_frame :
      (Session → List ℕ → Option (Session × List ℕ))
      → Session
      → List ℕ
      → Parsed
      → FrameResult
      → Option (Session × List ℕ)
  take_frame loop self buffer p wait = some (self, buffer)
  take_frame loop self buffer p failed = loop self []
  take_frame loop self buffer p (body_at offset) =
      handle w self p.header buffer offset >>= λ self'. loop self' (drop p.frame_length buffer)

  pub input_loop : ℕ → Session → List ℕ → Option (Session × List ℕ)
  input_loop zero self buffer = none
  input_loop (suc fuel) self buffer =
      let round = parse_frame any.frame any.frame_length buffer 0 (length buffer) >>= λ p.
      take_frame (λ self' buffer'. input_loop fuel self' buffer') self buffer p p.result in
      if length buffer == 0 then some (self, buffer) else round

  -- What one successful `stream_read` leads to; a round takes a byte at least.
  pub receive : Session → List ℕ → List ℕ → Option (Session × List ℕ)
  receive self buffer bytes = input_loop (length (buffer ++ bytes) + 1) self (buffer ++ bytes)

  -- `stream_mqtt_peek_frame`, given what the calls of `stream_read` yield one after the other.
  pub peek_frame : List Arrival → Session → List ℕ → Option (Peeked × (Session × List ℕ))
  peek_frame [] self buffer = some (peeked self.incoming, (self, buffer))
  peek_frame (got bytes ∷ rest) self buffer =
      let received = receive self buffer bytes >>= λ r. peek_frame rest r.0 r.1 in
      if nothing_waits self.incoming then received else some (peeked self.incoming, (self, buffer))
  peek_frame (nothing ∷ rest) self buffer = some (peeked self.incoming, (self, buffer))
  peek_frame (ended ∷ rest) self buffer =
      some (if nothing_waits self.incoming then closed else peeked self.incoming, (self, buffer))

-- A frame, and the bytes that `mqtt_format_frame` writes for it.
pub record Frame : Type 0 where
  pub kind : ℕ
  pub flags : ℕ
  pub body : List ℕ

abbrev pub bytes_of : Frame → List ℕ
bytes_of f = header_bytes f.kind f.flags (length f.body) ++ f.body

abbrev pub text : List Frame → List ℕ
text [] = []
text (f ∷ frames) = bytes_of f ++ text frames

abbrev pub Fit : List Frame → Type 0
Fit [] = Unit
Fit (f ∷ frames) = ((f.kind < 16) × (f.flags < 16) × (length f.body < 2 ^ 28)) × Fit frames

abbrev pub header_of : Frame → FixedHeader
header_of f = record { kind = f.kind; flags = f.flags; body_length = length f.body }

module _ (w : World) where
  -- The frames handled one after the other, each where it stands in front of the rest.
  pub handle_all : Session → List Frame → List ℕ → Option Session
  handle_all self [] rest = some self
  handle_all self (f ∷ frames) rest =
      handle w self (header_of f) (bytes_of f ++ (text frames ++ rest))
        (length (header_bytes f.kind f.flags (length f.body)))
      >>= λ self'. handle_all self' frames rest

-- Does the parser wait for more?
abbrev pub Waits : Locals → List ℕ → Type 0
Waits any rest =
    (p : Parsed) × (parse_frame any.frame any.frame_length rest 0 (length rest) ≡ some p)
    × (p.result ≡ wait)

module _ (w : World) (any : Locals) where
  length-text : (frames : List Frame) → length frames ≤ length (text frames)
  length-text [] = omega arith
  length-text (f ∷ frames) = omega (
    arith,
    length-text frames,
    length-append (bytes_of f) (text frames),
    length-append (header_bytes f.kind f.flags (length f.body)) f.body,
  )

  input_loop-Waits :
      (self : Session) (rest : List ℕ) (fuel : ℕ)
      → Waits any rest
      → input_loop w any (suc fuel) self rest ≡ some (self, rest)
  unfolding input_loop take_frame
  input_loop-Waits self [] fuel waits = refl
  input_loop-Waits self (x ∷ rest) fuel (p, parsed, waits) =
      let filled : (suc (length rest) == 0) ≡ false = ground arith in
      rw (filled, parsed, waits) refl

  behind_handle :
      (o : Option Session) (fuel : ℕ) (frames : List Frame) (rest left after : List ℕ)
      → left ≡ after
      → ((self : Session)
          → input_loop w any fuel self after
            ≡ (handle_all w self frames rest >>= λ self'. some (self', rest)))
      → (o >>= λ self. input_loop w any fuel self left)
        ≡ ((o >>= λ self. handle_all w self frames rest) >>= λ self'. some (self', rest))
  behind_handle none fuel frames rest left after e ih = refl
  behind_handle (some self) fuel frames rest left after e ih =
      ap (λ t. input_loop w any fuel self t) e ∙ ih self

  all_frames :
      (self : Session) (frames : List Frame) (rest : List ℕ) (fuel : ℕ)
      → Fit frames
      → Waits any rest
      → length frames < fuel
      → input_loop w any fuel self (text frames ++ rest)
        ≡ (handle_all w self frames rest >>= λ self'. some (self', rest))
  unfolding input_loop take_frame handle_all
  all_frames self frames rest zero fit waits enough = absurd (omega arith)
  all_frames self [] rest (suc fuel) fit waits enough = input_loop-Waits self rest fuel waits
  all_frames self (f ∷ frames) rest (suc fuel) ((k, fl, b), fit) waits enough =
      let behind = text frames ++ rest in
      let shape : text (f ∷ frames) ++ rest ≡ bytes_of f ++ behind =
        append_assoc (bytes_of f) (text frames) rest in
      let head = header_bytes f.kind f.flags (length f.body) in
      let size : length (bytes_of f) ≡ length head + length f.body = length-append head f.body in
      let parsed =
        parse_frame_whole f.kind f.flags f.body [] behind 0 k fl b refl any.frame any.frame_length
          (length (bytes_of f ++ behind))
          (omega (arith, size, length-append (bytes_of f) behind)) in
      let filled : (length (bytes_of f ++ behind) == 0) ≡ false = ground arith in
      let left : drop (length head + length f.body) (bytes_of f ++ behind) ≡ behind =
        drop-append (bytes_of f) behind (length head + length f.body) (sym size) in
      ap (λ t. input_loop w any (suc fuel) self t) shape
      ∙ rw (filled, parsed)
          (behind_handle (handle w self (header_of f) (bytes_of f ++ behind) (length head)) fuel
            frames rest (drop (length head + length f.body) (bytes_of f ++ behind)) behind left
            (λ self'. all_frames self' frames rest fuel fit waits (omega arith)))

  -- Wherever the reads cut the input: where what was left in the buffer and what is read are, together, some frames that
  -- fit their fields and a rest for which the parser waits, all these frames are handled, each once and in their order, and the rest is
  -- left in the buffer.
  pub receive-handle_all :
      (self : Session) (buffer bytes : List ℕ) (frames : List Frame) (rest : List ℕ)
      → buffer ++ bytes ≡ text frames ++ rest
      → Fit frames
      → Waits any rest
      → receive w any self buffer bytes
        ≡ (handle_all w self frames rest >>= λ self'. some (self', rest))
  unfolding receive
  receive-handle_all self buffer bytes frames rest e fit waits =
      ap (λ t. input_loop w any (length t + 1) self t) e
      ∙ all_frames self frames rest (length (text frames ++ rest) + 1) fit waits
          (omega (arith, length-text frames, length-append (text frames) rest))
