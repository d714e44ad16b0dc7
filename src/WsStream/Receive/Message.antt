-- ===== src/WsStream/Receive/Message.antt =====
-- A message that arrives in frames is put together again, byte for byte.
use c_mx.Common.{
  ℕ, zero, suc, ◌+◌, ◌*◌, ◌/◌, ◌%◌, ◌≤◌, ◌<◌, ◌^◌, true, false, some, List, [], ◌∷◌, ◌++◌, length,
}
use c_mx.Common.{length-append, append_assoc, append-nil, ltb, ◌==◌, if◌then◌else◌}
use c_mx.Common.{◌⊎◌, inl, inr, arith, ◌≡◌, refl, sym, ap, ◌∙◌}
use c_mx.Websocket.{WsFrame}
use c_mx.Websocket.Header.{frame_bytes}
use c_mx.Stream.{Lower, is_ready, st_ready}
use c_mx.Stream.{got}
use c_mx.WsStream.{WsFrameSlice, StreamWs, World}
use c_mx.WsStream.Receive.{frame_loop, dispatch, append_last}
use c_mx.WsStream.Receive.{waiting, peek_frame, peeked, first_done, read_frame, read_first, message}
use c_mx.WsStream.Receive.Frames.{one_frame}

-- A payload with its mask.
pub record Fragment : Type 0 where
  pub key : List ℕ
  pub bytes : List ℕ

-- The frames that carry a message: the opcode in the first, 0 in the others, and the flag in the last.
unfoldable pub fragments : ℕ → List Fragment → List ℕ
fragments op [] = []
fragments op (f ∷ []) = frame_bytes (128 + op) (some f.key) f.bytes
fragments op (f ∷ (g ∷ more)) = frame_bytes op (some f.key) f.bytes ++ fragments 0 (g ∷ more)

abbrev pub payload : List Fragment → List ℕ
payload [] = []
payload (f ∷ more) = f.bytes ++ payload more

-- The masks have 4 bytes, and the frames are below 2^64 bytes.
unfoldable pub Small : ℕ → List Fragment → Type 0
Small op [] = Unit
Small op (f ∷ more) =
    (length f.key ≡ 4) × (length (frame_bytes op (some f.key) f.bytes) < 2 ^ 64) × Small op more

-- The opcodes of text and of bytes.
abbrev pub IsData : ℕ → Type 0
IsData op = (op ≡ 1) ⊎ (op ≡ 2)

Small_lem : (op : ℕ) (more : List Fragment) → Small op more → Small 0 more
unfolding Small
Small_lem op [] small = tt
Small_lem op (f ∷ more) (four, size, rest) = (four, size, Small_lem op more rest)

length-fragments : (op : ℕ) (frags : List Fragment) → length frags ≤ length (fragments op frags)
unfolding fragments
length-fragments op [] = omega arith
length-fragments op (f ∷ []) = omega arith
length-fragments op (f ∷ (g ∷ more)) = omega (
  arith,
  length-fragments 0 (g ∷ more),
  length-append (frame_bytes op (some f.key) f.bytes) (fragments 0 (g ∷ more)),
)

append_last-append :
    (front : List WsFrameSlice) (slice : WsFrameSlice) (fin : ℕ) (bytes : List ℕ)
    → append_last (front ++ (slice ∷ [])) fin bytes
      ≡ front ++ (record slice { bytes = slice.bytes ++ bytes; fin = fin } ∷ [])
unfolding append_last
append_last-append [] slice fin bytes = refl
append_last-append (s ∷ []) slice fin bytes = refl
append_last-append (s ∷ (t ∷ front)) slice fin bytes =
    ap (λ u. s ∷ u) (append_last-append (t ∷ front) slice fin bytes)

module _ {S : Type 0} (lower : Lower S) (w : World) where
  nothing_left :
      (self : StreamWs S) (fuel : ℕ) (any : WsFrame)
      → frame_loop lower w (suc fuel) any (record self { buffer = [] })
        ≡ some (record self { buffer = [] })
  unfolding frame_loop
  nothing_left self fuel any = refl

  later_frames :
      (self : StreamWs S) (front : List WsFrameSlice) (slice : WsFrameSlice) (more : List Fragment)
      (fuel : ℕ) (any : WsFrame)
      → self.client_role ≡ false
      → 0 < length more
      → length more < fuel
      → Small 0 more
      → frame_loop lower w fuel any
          (record self { buffer = fragments 0 more; cache = front ++ (slice ∷ []) })
        ≡ some (record self {
          buffer = [];
          cache = front ++ (record slice { bytes = slice.bytes ++ payload more; fin = 1 } ∷ []);
        })
  unfolding fragments dispatch Small
  later_frames self front slice [] fuel any server some_left enough small = absurd (omega arith)
  later_frames self front slice (f ∷ more) zero any server some_left enough small =
      absurd (omega arith)
  later_frames self front slice (f ∷ []) (suc zero) any server some_left enough small =
      absurd (omega arith)
  later_frames self front slice (f ∷ []) (suc (suc fuel)) any server some_left enough
        (four, size, rest_small) =
      ap
        (λ t.
          frame_loop lower w (suc (suc fuel)) any
            (record self { buffer = t; cache = front ++ (slice ∷ []) }))
        (sym (append-nil (frame_bytes 128 (some f.key) f.bytes)))
      ∙ one_frame lower w (record self { cache = front ++ (slice ∷ []) }) 128 (suc fuel) f.key
          f.bytes [] any server (omega arith) four size
      ∙ ap (λ t. frame_loop lower w (suc fuel) any (record self { buffer = []; cache = t }))
          (append_last-append front slice 1 f.bytes)
      ∙ nothing_left
          (record self {
            cache = front ++ (record slice { bytes = slice.bytes ++ f.bytes; fin = 1 } ∷ []);
          })
          fuel any
      ∙ ap
          (λ t. some (record self {
            buffer = [];
            cache = front ++ (record slice { bytes = slice.bytes ++ t; fin = 1 } ∷ []);
          }))
          (sym (append-nil f.bytes))
  later_frames self front slice (f ∷ (g ∷ more)) (suc fuel) any server some_left enough
        (four, size, rest_small) =
      one_frame lower w (record self { cache = front ++ (slice ∷ []) }) 0 fuel f.key f.bytes
        (fragments 0 (g ∷ more)) any server (omega arith) four size
      ∙ ap
          (λ t.
            frame_loop lower w fuel any
              (record self { buffer = fragments 0 (g ∷ more); cache = t }))
          (append_last-append front slice 0 f.bytes)
      ∙ later_frames self front (record slice { bytes = slice.bytes ++ f.bytes; fin = 0 })
          (g ∷ more) fuel any server (omega arith) (omega arith) rest_small
      ∙ ap
          (λ t. some (record self {
            buffer = [];
            cache = front ++ (record slice { bytes = t; fin = 1 } ∷ []);
          }))
          (append_assoc slice.bytes f.bytes (payload (g ∷ more)))

  first_frame :
      (self : StreamWs S) (op fin fuel : ℕ) (key bytes rest : List ℕ) (any : WsFrame)
      → self.client_role ≡ false
      → IsData op
      → fin < 2
      → length key ≡ 4
      → length (frame_bytes op (some key) bytes) < 2 ^ 64
      → frame_loop lower w (suc fuel) any (record self {
        buffer = frame_bytes (fin * 128 + op) (some key) bytes ++ rest;
        cache = [];
      })
        ≡ frame_loop lower w fuel any (record self {
          buffer = rest;
          data_type = op;
          cache = record { bytes = bytes; fin = fin; opcode = op } ∷ [];
        })
  unfolding dispatch
  first_frame self op fin fuel key bytes rest any server kind small four size =
      let high : (fin * 128 + op) / 128 ≡ fin = elim kind [
        | inl e ↦ omega arith
        | inr e ↦ omega arith
      ] in
      let low : (fin * 128 + op) % 128 % 16 ≡ op = elim kind [
        | inl e ↦ omega arith
        | inr e ↦ omega arith
      ] in
      let low' : (fin * 128 + op) % 16 ≡ op = omega (arith, low) in
      let wanted : (if op == 1 then true else op == 2) ≡ true = elim kind [
        | inl e ↦ rw e refl
        | inr e ↦ rw e refl
      ] in
      one_frame lower w (record self { cache = [] }) (fin * 128 + op) fuel key bytes rest any server
        (omega (arith, low, high)) four size
      ∙ rw (high, low', wanted) refl

  all_frames :
      (self : StreamWs S) (op fuel : ℕ) (frags : List Fragment) (any : WsFrame)
      → self.client_role ≡ false
      → IsData op
      → 0 < length frags
      → length frags < fuel
      → Small op frags
      → frame_loop lower w fuel any (record self { buffer = fragments op frags; cache = [] })
        ≡ some (record self {
          buffer = [];
          data_type = op;
          cache = record { bytes = payload frags; fin = 1; opcode = op } ∷ [];
        })
  unfolding fragments Small
  all_frames self op fuel [] any server kind some_left enough small = absurd (omega arith)
  all_frames self op zero (f ∷ more) any server kind some_left enough small = absurd (omega arith)
  all_frames self op (suc zero) (f ∷ []) any server kind some_left enough small =
      absurd (omega arith)
  all_frames self op (suc (suc fuel)) (f ∷ []) any server kind some_left enough
        (four, size, rest_small) =
      let shape : frame_bytes (128 + op) (some f.key) f.bytes
          ≡ frame_bytes (1 * 128 + op) (some f.key) f.bytes ++ [] =
        ap (λ t. frame_bytes t (some f.key) f.bytes) (omega arith)
        ∙ sym (append-nil (frame_bytes (1 * 128 + op) (some f.key) f.bytes)) in
      ap (λ t. frame_loop lower w (suc (suc fuel)) any (record self { buffer = t; cache = [] }))
        shape
      ∙ first_frame self op 1 (suc fuel) f.key f.bytes [] any server kind (omega arith) four size
      ∙ nothing_left
          (record self {
            data_type = op;
            cache = record { bytes = f.bytes; fin = 1; opcode = op } ∷ [];
          })
          fuel any
      ∙ ap
          (λ t. some (record self {
            buffer = [];
            data_type = op;
            cache = record { bytes = t; fin = 1; opcode = op } ∷ [];
          }))
          (sym (append-nil f.bytes))
  all_frames self op (suc fuel) (f ∷ (g ∷ more)) any server kind some_left enough
        (four, size, rest_small) =
      let shape : frame_bytes op (some f.key) f.bytes
          ≡ frame_bytes (0 * 128 + op) (some f.key) f.bytes =
        ap (λ t. frame_bytes t (some f.key) f.bytes) (omega arith) in
      ap
        (λ t.
          frame_loop lower w (suc fuel) any
            (record self { buffer = t ++ fragments 0 (g ∷ more); cache = [] }))
        shape
      ∙ first_frame self op 0 fuel f.key f.bytes (fragments 0 (g ∷ more)) any server kind
          (omega arith) four size
      ∙ later_frames (record self { data_type = op }) []
          (record { bytes = f.bytes; fin = 0; opcode = op }) (g ∷ more) fuel any server
          (omega arith) (omega arith) (Small_lem op (g ∷ more) rest_small)

  -- A server that is ready, with nothing received before, reads the frames of a text or of bytes: however many frames the message
  -- came in, and under whatever masks of 4 bytes, one message waits, and reading it with enough room gives all its payload in order, as finished and with the
  -- opcode of the first frame, and leaves the cache empty.
  pub peek_frame-read_frame :
      (self : StreamWs S) (op : ℕ) (frags : List Fragment) (any : WsFrame) (n : ℕ)
      → self.client_role ≡ false
      → self.base.status ≡ st_ready
      → self.buffer ≡ []
      → self.cache ≡ []
      → IsData op
      → 0 < length frags
      → Small op frags
      → length (payload frags) ≤ n
      → (self' : StreamWs S) × (peek_frame lower w (got (fragments op frags) ∷ []) any self
          ≡ some (waiting (length (payload frags)), self'))
        × (read_frame self' n ≡ (
          message 1 op (payload frags),
          record self { buffer = []; data_type = op; cache = [] },
        ))
  unfolding peek_frame peeked first_done read_frame read_first is_ready
  peek_frame-read_frame self op frags any n server ready no_input no_cache kind some_left small
        room =
      let fuel = length (fragments op frags) + 1 in
      let looped =
        all_frames self op fuel frags any server kind some_left
          (omega (arith, length-fragments op frags)) small in
      let sent = fragments op frags in
      let whole : frame_loop lower w (length (self.buffer ++ sent) + 1) any
            (record self { buffer = self.buffer ++ sent })
          ≡ some (record self {
            buffer = [];
            data_type = op;
            cache = record { bytes = payload frags; fin = 1; opcode = op } ∷ [];
          }) =
        ap
          (λ b.
            frame_loop lower w (length (b ++ sent) + 1) any (record self { buffer = b ++ sent }))
          no_input
        ∙ ap (λ c. frame_loop lower w fuel any (record self { buffer = sent; cache = c })) no_cache
        ∙ looped in
      let not_done : first_done self.cache ≡ false = ap first_done no_cache in
      let is_open : is_ready self.base.status ≡ true = ap is_ready ready in
      let fits : ltb n (length (payload frags)) ≡ false = ground arith in
      (
        record self {
          buffer = [];
          data_type = op;
          cache = record { bytes = payload frags; fin = 1; opcode = op } ∷ [];
        },
        rw (not_done, is_open, whole) refl,
        rw fits refl,
      )
