-- ===== src/WsStream/Receive.antt =====
-- What a WebSocket stream receives, from source/stream_ws.c: frames, the loop over the input, and reading.
pub mod Frames
pub mod Message
use c_mx.Common.{
  ℕ, zero, suc, ◌+◌, Bool, true, false, Option, none, some, List, [], ◌∷◌, ◌++◌, length, take, drop,
}
use c_mx.Common.{ltb, leb, ◌==◌, if◌then◌else◌, ◌>>=◌, Memory}
use c_mx.Timer.{start}
use c_mx.Websocket.{WsFrame, Answer, parse_frame, apply_mask}
use c_mx.Stream.{Lower, is_ready, Arrival, got, nothing, ended}
use c_mx.WsStream.{WsFrameSlice, StreamWs, World, generate_mask, write_frame, disconnect}
use c_mx.WsStream.Handshake.{
  Step, go_on, refused, handle_handshake_request, handle_handshake_accept,
}

-- `buffer_append` to the last slice of the cache, if there is one.
pub append_last : List WsFrameSlice → ℕ → List ℕ → List WsFrameSlice
append_last [] fin bytes = []
append_last (slice ∷ []) fin bytes = record slice { bytes = slice.bytes ++ bytes; fin = fin } ∷ []
append_last (slice ∷ (next ∷ cache)) fin bytes = slice ∷ append_last (next ∷ cache) fin bytes

-- What `stream_ws_peek_frame` returns: the length of the first message, -1 with `EAGAIN`, or an end.
pub data Peeked : Type 0 where
  waiting : ℕ → Peeked
  empty closed : Peeked

-- Is the first slice of the cache finished?
pub first_done : List WsFrameSlice → Bool
first_done [] = false
first_done (slice ∷ cache) = if slice.fin == 0 then false else true

pub peeked : List WsFrameSlice → Peeked
peeked [] = empty
peeked (slice ∷ cache) = if slice.fin == 0 then empty else waiting (length slice.bytes)

module _ {S : Type 0} (lower : Lower S) (w : World) where
  -- The payload is unmasked where it stands; a client closes the connection instead.
  pub unmask : StreamWs S → WsFrame → Memory → Option (StreamWs S × Memory)
  unmask self frame bytes =
      let closed = disconnect lower w self 1002 >>= λ self'. some (self', bytes) in
      let unmasked =
        apply_mask bytes frame.payload_offset frame.payload_length (drop frame.mask_offset bytes) in
      if (if ltb 0 frame.payload_offset then frame.mask_flag == 0 else true)
      then some (self, bytes)
      else if self.client_role
      then closed
      else (unmasked >>= λ bytes'. some (self, bytes'))

  pub answer_ping : StreamWs S → List ℕ → Option (StreamWs S)
  answer_ping self payload =
      let self' = generate_mask lower w self in
      write_frame lower w self' 128 10 self'.mask payload >>= λ r.
      some (record (r.1) { keep_alive_timer = start w.sys w.clock 1 r.1.keep_alive })

  -- The switch on the opcode.
  unfoldable pub dispatch : StreamWs S → ℕ → ℕ → List ℕ → Option (StreamWs S)
  dispatch self fin opcode payload =
      let slice : WsFrameSlice = record { bytes = payload; fin = fin; opcode = opcode } in
      if (if opcode == 1 then true else opcode == 2)
      then some (record self { data_type = opcode; cache = self.cache ++ (slice ∷ []) })
      else if opcode == 0
      then some (record self { cache = append_last self.cache fin payload })
      else if opcode == 9
      then answer_ping self payload
      else if opcode == 10
      then some (record self { keep_alive_responded = true })
      else some self

  -- `stream_ws_handle_received_frame`: the stream, and the bytes with the payload unmasked.
  pub handle_received_frame : StreamWs S → WsFrame → Memory → Option (StreamWs S × Memory)
  handle_received_frame self frame bytes = unmask self frame bytes >>= λ u.
      dispatch u.0 frame.fin_flag frame.opcode
        (take frame.payload_length (drop frame.payload_offset u.1))
      >>= λ self'. some (self', u.1)

  -- One round of the loop over the input: `loop` makes the others.
  pub take_frame : (StreamWs S → Option (StreamWs S)) → StreamWs S → Answer → Option (StreamWs S)
  take_frame loop self a =
      let taken = handle_received_frame self a.frame self.buffer >>= λ r.
      loop (record (r.0) { buffer = drop a.frame_length r.1 }) in
      if a.complete then taken else some self

  -- The loop of `stream_ws_peek_frame` over the frames in the input, on fuel; `any` is what the local
  -- variable holds before.
  pub frame_loop : ℕ → WsFrame → StreamWs S → Option (StreamWs S)
  frame_loop zero any self = none
  frame_loop (suc fuel) any self =
      let round = parse_frame any self.buffer (length self.buffer) >>= λ a.
      take_frame (λ self'. frame_loop fuel any self') self a in
      if length self.buffer == 0 then some self else round

  pub handshake : StreamWs S → Step × StreamWs S
  handshake self =
      if self.client_role
      then handle_handshake_accept lower w self
      else handle_handshake_request lower w self

  pub after_handshake : Step × StreamWs S → Peeked × StreamWs S
  after_handshake (go_on, self) = (empty, self)
  after_handshake (refused, self) = (closed, self)

  -- `stream_ws_peek_frame`, given what the calls of `stream_read` yield one after the other.
  pub peek_frame : List Arrival → WsFrame → StreamWs S → Option (Peeked × StreamWs S)
  peek_frame [] any self = some (peeked self.cache, self)
  peek_frame (got bytes ∷ rest) any self =
      let self' = record self { buffer = self.buffer ++ bytes } in
      let framed =
        frame_loop (length self'.buffer + 1) any self' >>= λ self''. peek_frame rest any self'' in
      if first_done self.cache
      then some (peeked self.cache, self)
      else if is_ready self.base.status
      then framed
      else some (after_handshake (handshake self'))
  peek_frame (nothing ∷ rest) any self = some (peeked self.cache, self)
  peek_frame (ended ∷ rest) any self =
      some (if first_done self.cache then peeked self.cache else closed, self)

-- What `stream_ws_read_frame` returns: a message, `EAGAIN`, or that the buffer is too small.
pub data ReadFrame : Type 0 where
  message : ℕ → ℕ → List ℕ → ReadFrame
  not_yet too_large : ReadFrame

pub read_first : {S : Type 0} → StreamWs S → List WsFrameSlice → ℕ → ReadFrame × StreamWs S
read_first self [] length_ = (not_yet, self)
read_first self (slice ∷ rest) length_ =
    if slice.fin == 0
    then (not_yet, self)
    else if ltb length_ (length slice.bytes)
    then (too_large, self)
    else (message slice.fin slice.opcode slice.bytes, record self { cache = rest })

-- `stream_ws_read_frame`
pub read_frame : {S : Type 0} → StreamWs S → ℕ → ReadFrame × StreamWs S
read_frame self length_ = read_first self self.cache length_

-- `stream_ws_do_read` behind its call of `stream_ws_peek_frame`: up to `length_` bytes of the first slice.
pub take_first : {S : Type 0} → StreamWs S → List WsFrameSlice → ℕ → Option (List ℕ) × StreamWs S
take_first self [] length_ = (none, self)
take_first self (slice ∷ rest) length_ =
    let left = drop length_ slice.bytes in
    (
      some (take length_ slice.bytes),
      record self {
        cache = if length left == 0 then rest else record slice { bytes = left } ∷ rest;
      },
    )

-- What `stream_ws_do_read` returns: bytes, -1 with `EAGAIN`, or what `stream_ws_peek_frame` returned.
pub data DoRead : Type 0 where
  bytes_read : List ℕ → DoRead
  try_again stopped : DoRead

pub read_slice : {S : Type 0} → Option (List ℕ) × StreamWs S → DoRead × StreamWs S
read_slice (none, self) = (try_again, self)
read_slice (some bytes, self) = (bytes_read bytes, self)

pub after_peek : {S : Type 0} → Bool → ℕ → Peeked × StreamWs S → DoRead × StreamWs S
after_peek again length_ (closed, self) =
    if again then read_slice (take_first self self.cache length_) else (stopped, self)
after_peek again length_ (empty, self) = read_slice (take_first self self.cache length_)
after_peek again length_ (waiting n, self) = read_slice (take_first self self.cache length_)

-- `stream_ws_do_read`; `again` says whether `errno` is `EAGAIN` where the stream below has ended, which
-- a `read` that returns 0 leaves as it was.
pub do_read :
    {S : Type 0}
    → Lower S
    → World
    → List Arrival
    → Bool
    → WsFrame
    → StreamWs S
    → ℕ
    → Option (DoRead × StreamWs S)
do_read lower w arrivals again any self length_ = do
  p ← peek_frame lower w arrivals any self
  some (after_peek again length_ p)
