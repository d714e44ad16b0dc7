-- ===== src/WsStream.antt =====
-- WebSocket streams: the state and what is sent, from source/stream_ws.c. A WebSocket stream writes by
-- way of the base class (see Stream), to the `Lower` stream that it decorates. The buffer and the slices'
-- buffers are lists of bytes (see Buffer for the refinement).
pub mod Handshake
pub mod Receive
pub mod Sent
pub mod Alive
mod Tests
use c_mx.Common.{
  ℕ, zero, suc, ◌+◌, ◌/◌, ◌^◌, Bool, true, false, Option, none, some, List, [], ◌∷◌, ◌++◌, length,
  take,
}
use c_mx.Common.{◌==◌, if◌then◌else◌, ◌>>=◌, bit_and, bit_or, Memory}
use c_mx.Libc.{codes}
use c_mx.Timer.{Clock, Timer, start, restart, stop, expired}
use c_mx.Websocket.{format_frame}
use c_mx.Stream.{Result, wrote, failed, Lower, Stream, Status, st_closing}

-- `struct ws_frame_slice`
pub record WsFrameSlice : Type 0 where
  pub bytes : List ℕ
  pub fin : ℕ
  pub opcode : ℕ

-- `struct stream_ws`, with the stream that it decorates, and the number of calls of `rand_data` so far.
pub record StreamWs (S : Type 0) : Type 0 where
  pub base : Stream
  pub below : S
  pub buffer : List ℕ
  pub client_role : Bool
  pub cache : List WsFrameSlice
  pub data_type : ℕ
  pub key : Option (List ℕ)
  pub mask : Option (List ℕ)
  pub keep_alive : ℕ
  pub keep_alive_responded : Bool
  pub keep_alive_timer : Timer
  pub drawn : ℕ

-- What the stream runs in: the clocks, what new memory holds, what `rand_data` gives at each call, by the
-- number of bytes wanted, and the results of `SHA1` and `base64_encode`.
pub record World : Type 0 where
  pub sys : Clock
  pub clock : Clock
  pub malloc : ℕ → Memory
  pub rand_data : ℕ → ℕ → List ℕ
  pub sha1 : List ℕ → List ℕ
  pub base64 : List ℕ → Option (List ℕ)

-- `stream_ws_init`
pub init : {S : Type 0} → StreamWs S → StreamWs S
init self = record self {
  buffer = [];
  cache = [];
  client_role = false;
  data_type = 2;
  mask = none;
  key = none;
  keep_alive = 0;
  keep_alive_responded = true;
  keep_alive_timer = stop self.keep_alive_timer;
}

-- `stream_ws_clean`
pub clean : {S : Type 0} → StreamWs S → StreamWs S
clean self = record self { buffer = []; key = none; cache = [] }

unfoldable pub set_status : {S : Type 0} → StreamWs S → Status → StreamWs S
set_status self status = record self { base = record self.base { status = status } }

module _ {S : Type 0} (lower : Lower S) (w : World) where
  unfoldable pub generate_mask : StreamWs S → StreamWs S
  generate_mask self =
      if self.client_role
      then record self { mask = some (w.rand_data self.drawn 4); drawn = self.drawn + 1 }
      else record self { mask = none }

  -- `stream_do_write` of the base class.
  unfoldable pub send : StreamWs S → List ℕ → Result × StreamWs S
  send self bytes =
      let r = c_mx.Stream.do_write lower (self.base, self.below) bytes in
      (r.0, record self { base = r.1.0; below = r.1.1 })

  -- `stream_ws_write_frame`; `none` is an access outside of the memory allocated for the frame.
  unfoldable pub write_frame :
      StreamWs S → ℕ → ℕ → Option (List ℕ) → List ℕ → Option (Result × StreamWs S)
  write_frame self fin opcode mask bytes =
      let flags = bit_or (if fin == 0 then 0 else 128) opcode in
      format_frame (w.malloc (length bytes + 14)) flags mask bytes (length bytes) >>= λ r.
      some (send self (take r.0 r.1))

  -- `stream_ws_do_write`
  unfoldable pub do_write : StreamWs S → List ℕ → Option (Result × StreamWs S)
  do_write self bytes =
      let self' = generate_mask self in write_frame self' 128 self'.data_type self'.mask bytes

  -- The memory of `unsigned short payload[2]` with the lowest byte first, whose size is sent.
  pub close_payload : ℕ → List ℕ
  close_payload code = bit_and (code / 2 ^ 8) 255 ∷ 0 ∷ bit_and code 255 ∷ 0 ∷ []

  -- `stream_ws_disconnect`
  unfoldable pub disconnect : StreamWs S → ℕ → Option (StreamWs S)
  disconnect self code =
      let self' = generate_mask self in
      write_frame self' 128 8 self'.mask (close_payload code) >>= λ r.
      some (set_status r.1 st_closing)

  unfoldable pub ping : StreamWs S → Option (StreamWs S)
  ping self =
      let self' = generate_mask self in
      write_frame self' 128 9 self'.mask [] >>= λ r. some (record (r.1) {
        keep_alive_responded = false;
        keep_alive_timer = restart w.sys w.clock r.1.keep_alive_timer;
      })

  -- What `stream_ws_do_time` does for the connection, before `stream_do_time`.
  unfoldable pub do_time : StreamWs S → Option (StreamWs S)
  do_time self =
      if expired w.sys w.clock self.keep_alive_timer
      then if self.client_role
        then if self.keep_alive_responded then ping self else some (set_status self st_closing)
        else some (set_status self st_closing)
      else some self
