-- ===== src/Session/Receive.antt =====
-- The frames that an MQTT stream receives: `stream_mqtt_handle_received_frame` of source/stream_mqtt.c,
-- one function for each of its cases, and `mqtt_request_type` of source/mqtt.c.
pub mod Inbound
pub mod Kinds
pub mod Once
use c_mx.Common.{ℕ, ◌+◌, Bool, true, false, Option, none, some, List, [], ◌∷◌, ◌++◌, length}
use c_mx.Common.{u32, ltb, ◌==◌, if◌then◌else◌, ◌>>=◌, Memory, load_bytes}
use c_mx.Timer.{Timer, start, stop}
use c_mx.Mqtt.Frame.{FixedHeader}
use c_mx.Mqtt.Packets.{
  parse_connack, parse_subscribe, parse_unsubscribe, parse_suback, parse_unsuback,
}
use c_mx.Mqtt.Packets.{parse_var_header_id}
use c_mx.Mqtt.Publish.{Publish, parse_publish}
use c_mx.Mqtt.Connect.{Connect, parse_connect}
use c_mx.Session.{
  Item, Session, Status, st_ready, World, Message, connect_msg, connack_msg, subscribe_msg,
}
use c_mx.Session.{unsubscribe_msg, publish_msg, suback_msg, unsuback_msg, no_msg, append_frame}
use c_mx.Session.{remove_frame, qos_from_flags, write_frame, write_frame_packet_id, pubrel}

-- `mqtt_request_type`
unfoldable pub request_type : ℕ → ℕ
request_type kind =
    if kind == 9
    then 8
    else if kind == 11
    then 10
    else if kind == 4
    then 3
    else if kind == 5
    then 3
    else if kind == 7
    then 6
    else 0

-- `mqtt_response_type`
unfoldable pub response_type : ℕ → ℕ → ℕ
response_type kind qos =
    if kind == 8
    then 9
    else if kind == 10
    then 11
    else if kind == 3
    then if qos == 1 then 4 else if qos == 2 then 5 else 0
    else if kind == 6
    then 7
    else 0

-- SUBACK, UNSUBACK, PUBACK, PUBREC and PUBCOMP.
unfoldable pub is_ack : ℕ → Bool
is_ack kind =
    if kind == 9
    then true
    else if kind == 11
    then true
    else if kind == 4
    then true
    else if kind == 5
    then true
    else kind == 7

module _ (w : World) where
  pub notify : Session → ℕ → ℕ → Memory → Message → Bool × Session
  notify self kind flags memory msg =
      if self.observed then w.handler self kind flags memory msg else (false, self)

  -- The end of most cases: a frame that the observer has not handled is queued with its body.
  pub keep : Bool × Session → FixedHeader → Memory → ℕ → Option Session
  keep (true, self) frame memory at = some self
  keep (false, self) frame memory at = do
    body ← load_bytes memory at frame.body_length
    some (record self { incoming = append_frame self.incoming frame.kind frame.flags 0 body })

  pub deliver : Session → FixedHeader → Memory → ℕ → Message → Option Session
  deliver self frame memory at msg =
      keep (notify self frame.kind frame.flags memory msg) frame memory at

  -- The cases that parse the body only where there is an observer.
  pub deliver_parsed : Session → FixedHeader → Memory → ℕ → Option Message → Option Session
  deliver_parsed self frame memory at parsed =
      if self.observed
      then (parsed >>= λ msg. deliver self frame memory at msg)
      else keep (false, self) frame memory at

  pub on_connect : Session → FixedHeader → Memory → ℕ → Option Session
  on_connect self frame memory at = do
    (msg, _) ← parse_connect w.any_connect memory at frame.body_length
    let kept =
        (if ltb 0 msg.keep_alive
          then record self {
            keep_alive = u32 (msg.keep_alive + 15);
            keep_alive_timer = start w.sys w.clock 1 (u32 (msg.keep_alive + 15));
          }
          else self)
    deliver kept frame memory at (connect_msg msg)

  pub accepted : Session → ℕ → Session
  accepted self return_code =
      if return_code == 0
      then if ltb 0 self.keep_alive
        then record self {
          keep_alive_timer = start w.sys w.clock 1 self.keep_alive;
          status = st_ready;
        }
        else self
      else self

  pub on_connack : Session → FixedHeader → Memory → ℕ → Option Session
  on_connack self frame memory at = do
    (msg, _) ← parse_connack memory at frame.body_length
    deliver (accepted self msg.return_code) frame memory at (connack_msg msg)

  pub on_subscribe : Session → FixedHeader → Memory → ℕ → Option Session
  on_subscribe self frame memory at =
      deliver_parsed self frame memory at
        (parse_subscribe memory at frame.body_length >>= λ r. some (subscribe_msg r.0))

  pub on_unsubscribe : Session → FixedHeader → Memory → ℕ → Option Session
  on_unsubscribe self frame memory at =
      deliver_parsed self frame memory at
        (parse_unsubscribe memory at frame.body_length >>= λ r. some (unsubscribe_msg r.0))

  -- A frame of quality 2 replaces one of the same identifier that is still waiting.
  pub hold : Session → FixedHeader → ℕ → List ℕ → Session
  hold self frame id body = record self {
    inbound =
        append_frame (remove_frame self.inbound frame.kind id).1 frame.kind frame.flags id body;
  }

  pub on_publish : Session → FixedHeader → Memory → ℕ → Option Session
  on_publish self frame memory at = do
    let qos = qos_from_flags frame.flags
    (msg, _) ← parse_publish w.any_publish memory at frame.body_length qos
    if qos == 2
        then (load_bytes memory at frame.body_length >>= λ body.
            write_frame_packet_id w (hold self frame msg.id body) 5 msg.id)
        else ((if qos == 1 then write_frame_packet_id w self 4 msg.id else some self) >>= λ self'.
            deliver self' frame memory at (publish_msg msg))

  unfoldable pub acknowledged : Session → ℕ → ℕ → Session
  acknowledged self kind id =
      let (found, rest) = remove_frame self.outgoing (request_type kind) id in
      record self {
        outgoing = rest;
        resend_timer = if found then stop self.resend_timer else self.resend_timer;
      }

  unfoldable pub on_ack : Session → FixedHeader → Memory → ℕ → Option Session
  on_ack self frame memory at = do
    (header, _) ← parse_var_header_id memory at frame.body_length
    let self' = acknowledged self frame.kind header.id
    if frame.kind == 5
        then (pubrel w self' header.id >>= λ self''.
            some (record self'' { resend_timer = start w.sys w.clock 1 30; resend_attempts = 0 }))
        else if frame.kind == 9
        then deliver_parsed self' frame memory at
            (parse_suback memory at frame.body_length >>= λ r. some (suback_msg r.0))
        else if frame.kind == 11
        then deliver_parsed self' frame memory at
            (parse_unsuback memory at frame.body_length >>= λ r. some (unsuback_msg r.0))
        else some self'

  -- A frame that was held and is taken out of the inbound queue: to the observer, else to the
  -- incoming queue.
  pub release_item : Session → Item → Option Session
  release_item self item = do
    (handled, self') ←
        (if item.kind == 3
          then if self.observed
            then (parse_publish w.any_publish item.body 0 (length item.body)
                  (qos_from_flags item.flags)
                >>= λ r. some (notify self item.kind item.flags item.body (publish_msg r.0)))
            else some (false, self)
          else some (false, self))
    some (if handled then self' else record self' { incoming = self'.incoming ++ (item ∷ []) })

  -- The loop over the inbound queue: `kept` are the frames passed already and left in it.
  pub release : ℕ → List Item → List Item → Session → Option Session
  release id kept [] self = some self
  release id kept (item ∷ rest) self = do
    self' ←
        (if item.id == id
          then release_item (record self { inbound = kept ++ rest }) item
          else some self)
    release id (if item.id == id then kept else kept ++ (item ∷ [])) rest self'

  pub on_pubrel : Session → FixedHeader → Memory → ℕ → Option Session
  on_pubrel self frame memory at = do
    (msg, _) ← parse_var_header_id memory at frame.body_length
    self' ← write_frame_packet_id w self 7 msg.id
    release msg.id [] self'.inbound self'

  pub on_pingreq : Session → Option Session
  on_pingreq self = do
    self' ← write_frame w self 13 0 [] 0
    some (record self' { keep_alive_timer = start w.sys w.clock 1 self'.keep_alive })

  pub on_disconnect : Session → FixedHeader → Memory → Option Session
  on_disconnect self frame memory =
      let (handled, self') = notify self frame.kind frame.flags memory no_msg in
      some (
        if handled then self' else record self' {
          incoming = append_frame self'.incoming frame.kind frame.flags 0 (0 ∷ []);
        })

  -- `stream_mqtt_handle_received_frame`: the body stands at `at`.
  unfoldable pub handle : Session → FixedHeader → Memory → ℕ → Option Session
  handle self frame memory at =
      if frame.kind == 1
      then on_connect self frame memory at
      else if frame.kind == 2
      then on_connack self frame memory at
      else if frame.kind == 8
      then on_subscribe self frame memory at
      else if frame.kind == 10
      then on_unsubscribe self frame memory at
      else if frame.kind == 3
      then on_publish self frame memory at
      else if is_ack frame.kind
      then on_ack self frame memory at
      else if frame.kind == 6
      then on_pubrel self frame memory at
      else if frame.kind == 12
      then on_pingreq self
      else if frame.kind == 13
      then some (record self { keep_alive_responded = true })
      else if frame.kind == 14
      then on_disconnect self frame memory
      else some self
