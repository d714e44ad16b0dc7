-- ===== src/Session.antt =====
-- The MQTT stream: source/stream_mqtt.c and include/mx/stream_mqtt.h. This file has its state, its queues
-- of frames, and what an application calls to send; `Session.Receive` has the frames that
-- come in, and `Session.Time` what happens as time passes.
-- What the stream writes to the stream below it is the list `written`; what those writes return is
-- not modelled. A queued frame's buffer is the list of its bytes (`Buffer.Refine` says why it may be).
pub mod Frames
pub mod Receive
pub mod Time
pub mod Input
mod Tests
use c_mx.Common.{
  ℕ, ◌+◌, ◌*◌, ◌/◌, ◌^◌, Bool, true, false, Option, none, some, List, [], ◌∷◌, ◌++◌, length, take,
}
use c_mx.Common.{u8, ltb, ◌==◌, if◌then◌else◌, bit_and, bit_or, ◌>>=◌, Memory, load_bytes}
use c_mx.Buffer.{Allocator}
use c_mx.Timer.{Clock, Timer, start, stop}
use c_mx.Mqtt.Put.{Writer, ◌>>◌, put_short}
use c_mx.Mqtt.Frame.{FixedHeader, format_fixed_header, format_frame}
use c_mx.Mqtt.Packets.{Connack, Subscribe, Unsubscribe, Suback, Unsuback, VarHeaderId}
use c_mx.Mqtt.Packets.{format_connack, format_suback, eval_subscribe, format_subscribe}
use c_mx.Mqtt.Packets.{eval_unsubscribe, format_unsubscribe}
use c_mx.Mqtt.Publish.{Publish, eval_publish, format_publish}
use c_mx.Mqtt.Connect.{Connect, Login, eval_connect, format_connect}

-- `struct mqtt_frame_item`
pub record Item : Type 0 where
  pub kind : ℕ
  pub flags : ℕ
  pub id : ℕ
  pub body : List ℕ

-- The values of `enum stream_status_e` that the stream sets.
pub data Status : Type 0 where
  st_init st_ready st_closing : Status

-- `struct stream_mqtt`, with what went to the stream below. `observed` says that there is an observer.
pub record Session : Type 0 where
  pub status : Status
  pub client_role : Bool
  pub incoming : List Item
  pub outgoing : List Item
  pub inbound : List Item
  pub observed : Bool
  pub keep_alive : ℕ
  pub keep_alive_responded : Bool
  pub keep_alive_timer : Timer
  pub resend_attempts : ℕ
  pub resend_timer : Timer
  pub written : List (List ℕ)

-- What an observer is given: a pointer to one of these structures, or a null pointer.
pub data Message : Type 0 where
  connect_msg : Connect → Message
  connack_msg : Connack → Message
  subscribe_msg : Subscribe → Message
  unsubscribe_msg : Unsubscribe → Message
  publish_msg : Publish → Message
  suback_msg : Suback → Message
  unsuback_msg : Unsuback → Message
  no_msg : Message

-- What the stream runs in: the allocator, the clocks, the application's handler, with the memory that the
-- message points into, and what local structures hold before they are filled. The handler's Boolean says
-- that its result is above 0. It may use the stream, but not the inbound queue.
pub record World : Type 0 where
  pub allocator : Allocator
  pub sys : Clock
  pub clock : Clock
  pub handler : Session → ℕ → ℕ → Memory → Message → Bool × Session
  pub any_connect : Connect
  pub any_publish : Publish

-- `stream_mqtt_init`
pub init : Session → Session
init self = record self {
  incoming = [];
  outgoing = [];
  inbound = [];
  observed = false;
  keep_alive = 0;
  keep_alive_responded = true;
  keep_alive_timer = stop self.keep_alive_timer;
  resend_attempts = 0;
  resend_timer = stop self.resend_timer;
  client_role = false;
}

-- `stream_mqtt_clean`
pub clean : Session → Session
clean self = record self { incoming = []; outgoing = []; inbound = []; observed = false }

pub set_observer : Session → Session
set_observer self = record self { observed = true }

pub remove_observer : Session → Session
remove_observer self = record self { observed = false }

unfoldable pub real_write : Session → List ℕ → Session
real_write self bytes = record self { written = self.written ++ (bytes ∷ []) }

unfoldable pub append_frame : List Item → ℕ → ℕ → ℕ → List ℕ → List Item
append_frame queue kind flags id body =
    queue ++ (record { kind = kind; flags = flags; id = id; body = body } ∷ [])

unfoldable pub insert_frame : List Item → ℕ → ℕ → ℕ → List ℕ → List Item
insert_frame queue kind flags id body =
    record { kind = kind; flags = flags; id = id; body = body } ∷ queue

pub is_frame : ℕ → ℕ → Item → Bool
is_frame kind id item = if item.kind == kind then item.id == id else false

-- Whether a frame was found, and the queue without all that were.
pub remove_frame : List Item → ℕ → ℕ → Bool × List Item
remove_frame [] kind id = (false, [])
remove_frame (item ∷ queue) kind id =
    let (found, rest) = remove_frame queue kind id in
    if is_frame kind id item then (true, rest) else (found, item ∷ rest)

pub qos_to_flags : ℕ → ℕ
qos_to_flags qos = bit_and qos 3 * 2 ^ 1

pub qos_from_flags : ℕ → ℕ
qos_from_flags flags = bit_and (flags / 2 ^ 1) 3

-- `stream_mqtt_read_frame`: the frame's type, flags and body, or nothing (`EAGAIN`, `ENOMEM`).
pub read_first : Session → List Item → ℕ → Option (Item × Session)
read_first self [] size = none
read_first self (item ∷ rest) size =
    if ltb size (length item.body) then none else some (item, record self { incoming = rest })

pub read_frame : Session → ℕ → Option (Item × Session)
read_frame self size = read_first self self.incoming size

module _ (w : World) where
  -- The bytes that a writer puts at the start of a new block of `n` bytes.
  pub formatted : Writer → ℕ → Option (List ℕ)
  formatted format n = do (size, block) ← format 0 (w.allocator.malloc n); load_bytes block 0 size

  pub start_resend : Session → Session
  start_resend self = record self { resend_timer = start w.sys w.clock 1 30; resend_attempts = 0 }

  pub write_frame : Session → ℕ → ℕ → List ℕ → ℕ → Option Session
  write_frame self kind flags body length = do
    frame ← formatted (format_frame kind flags body length) (length + 5)
    some (real_write self frame)

  pub write_frame_packet_id : Session → ℕ → ℕ → Option Session
  write_frame_packet_id self kind id = do
    body ← formatted (put_short id) 2
    write_frame self kind (if kind == 6 then qos_to_flags 1 else 0) body 2

  pub connect : Session → Login → Option Session
  connect self l = do
    let size =
        eval_connect (some l.client_id) l.will_topic l.will_msg_len l.user_name l.password_len
    frame ← formatted (format_fixed_header 1 0 size >> format_connect l) (size + 5)
    some (real_write (record self { client_role = true; keep_alive = l.keep_alive }) frame)

  pub connack : Session → Bool → ℕ → Option Session
  connack self session_present return_code = do
    body ← formatted (format_connack session_present return_code) 2
    write_frame (if return_code == 0 then record self { status = st_ready } else self) 2 0 body 2

  -- Sends now if nothing is queued, with the timer started if `acknowledged`; and queues what has to
  -- wait or to be acknowledged.
  pub send : Session → Bool → ℕ → ℕ → ℕ → List ℕ → Session
  send self acknowledged kind flags id frame =
      let idle = is_empty self.outgoing in
      let sent = (if idle then real_write self frame else self) in
      let timed = (if idle then if acknowledged then start_resend sent else sent else sent) in
      if idle then if acknowledged then queued timed else timed else queued timed
    where
      is_empty : List Item → Bool
      is_empty [] = true
      is_empty (item ∷ queue) = false

      queued : Session → Session
      queued s = record s { outgoing = append_frame s.outgoing kind flags id frame }

  pub publish_flags : Bool → Bool → ℕ → ℕ
  publish_flags retain dup qos =
      let f0 = u8 (qos_to_flags qos) in
      let f1 = (if retain then bit_or f0 1 else f0) in if dup then bit_or f1 8 else f1

  pub publish : Session → Bool → Bool → ℕ → ℕ → List ℕ → List ℕ → Option Session
  publish self retain dup qos id topic payload = do
    let flags = publish_flags retain dup qos
    let size = eval_publish qos topic (length payload)
    frame ←
        formatted
          (format_fixed_header 3 flags size >> format_publish qos id topic payload (length payload))
          (size + 5)
    some (send self (ltb 0 qos) 3 flags id frame)

  pub pubrel : Session → ℕ → Option Session
  pubrel self id = do
    frame ← formatted (format_fixed_header 6 (qos_to_flags 1) 2 >> put_short id) 4
    some (
        real_write
          (record self { outgoing = insert_frame self.outgoing 6 (qos_to_flags 1) id frame }) frame)

  pub subscribe : Session → ℕ → List ℕ → ℕ → Option Session
  subscribe self id topic qos = do
    let size = eval_subscribe topic
    frame ←
        formatted (format_fixed_header 8 (qos_to_flags 1) size >> format_subscribe id topic qos)
          (size + 5)
    some (send self true 8 (qos_to_flags 1) id frame)

  pub suback : Session → ℕ → ℕ → Option Session
  suback self id return_code = do
    body ← formatted (format_suback id return_code) 3
    write_frame self 9 0 body 3

  pub unsubscribe : Session → ℕ → List ℕ → Option Session
  unsubscribe self id topic = do
    let size = eval_unsubscribe topic
    frame ←
        formatted (format_fixed_header 10 (qos_to_flags 1) size >> format_unsubscribe id topic)
          (size + 5)
    some (send self true 10 (qos_to_flags 1) id frame)

  pub disconnect : Session → Option Session
  disconnect self = do
    self' ← write_frame self 14 0 [] 0
    some (record self' { status = st_closing })
