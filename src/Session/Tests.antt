-- ===== src/Session/Tests.antt =====
-- The theorems on MQTT streams at a concrete stream.
use c_mx.Common.{ℕ, true, false, some, List, [], ◌∷◌, ◌>>=◌, arith, ◌≡◌, refl}
use c_mx.Common.{Memory, load_bytes}
use c_mx.Buffer.Zeroing.{zeroing}
use c_mx.Timer.{start, expired, before_end, time_now, tstamp, clock_for}
use c_mx.Mqtt.Get.{Slice, get_short, get_data, get_string, pure, ◌>>=◌ as ◌then_read◌}
use c_mx.Mqtt.Frame.{FixedHeader, parse_frame, wait}
use c_mx.Mqtt.Length.Digits.{groups}
use c_mx.Session.Input.{Frame, Locals, receive, handle_all, receive-handle_all}
use c_mx.Mqtt.Packets.{consumed, parse_var_header_id, read_var_header_id, finish}
use c_mx.Mqtt.Publish.{Publish, parse_publish}
use c_mx.Session.{Item, Session, World, st_ready, qos_from_flags}
use c_mx.Session.Receive.{request_type, response_type, on_publish, on_pubrel}
use c_mx.Session.Receive.Inbound.{matching}
use c_mx.Session.Receive.Kinds.{request_type-response_type}
use c_mx.Session.Receive.Once.{IsHeldPublish, id_frame, delivered_once}
use c_mx.Session.Time.{do_time}
use c_mx.Session.Time.Outgoing.{three_times}

request_type-response_type_example : request_type (response_type 3 2) ≡ 3
unfolding response_type
request_type-response_type_example = request_type-response_type 3 2 (omega arith)

abbrev no_slice : Slice
no_slice = record { start = 0; len = 0 }

-- A stream's surroundings at a second of the clock, with a handler that takes nothing.
abbrev at_second : ℕ → World
at_second s = record {
  allocator = zeroing;
  sys = record { ms = 0; s = s; chrono = 0 };
  clock = record { ms = 0; s = s; chrono = 0 };
  handler = λ self kind flags memory msg. (false, self);
  any_connect = record {
    protocol_name = no_slice;
    protocol_level = 0;
    clean_session = false;
    keep_alive = 0;
    will_qos = 0;
    will_retain = false;
    will_topic = no_slice;
    will_msg = no_slice;
    client_id = no_slice;
    user_name = no_slice;
    password = no_slice;
  };
  any_publish = record { id = 0; topic = no_slice; payload = no_slice };
}

-- Two frames that wait for an acknowledgement, the first sent at second 1.
abbrev first_item : Item
first_item = record { kind = 8; flags = 2; id = 5; body = 130 ∷ [] }

abbrev next_item : Item
next_item = record { kind = 3; flags = 2; id = 6; body = 50 ∷ [] }

abbrev waiting : ℕ → Session
waiting attempts = record {
  status = st_ready;
  client_role = true;
  incoming = [];
  outgoing = first_item ∷ next_item ∷ [];
  inbound = [];
  observed = false;
  keep_alive = 0;
  keep_alive_responded = true;
  keep_alive_timer = record { start_time = 0; interval = 0; flags = 0 };
  resend_attempts = attempts;
  resend_timer = record { start_time = 1; interval = 30; flags = 1 };
  written = [];
}

three_times_example :
    (do_time (at_second 31) (waiting 0) >>= λ s1.
    do_time (at_second 61) s1 >>= λ s2. do_time (at_second 91) s2)
    ≡ some (record (waiting 0) {
      outgoing = next_item ∷ [];
      resend_attempts = 0;
      resend_timer = record { start_time = 91; interval = 30; flags = 1 };
      written = (130 ∷ []) ∷ (130 ∷ []) ∷ (50 ∷ []) ∷ [];
    })
unfolding expired before_end time_now tstamp clock_for start
three_times_example =
    three_times (at_second 31) (at_second 61) (at_second 91) (waiting 0) first_item (next_item ∷ [])
      refl refl refl refl refl refl

-- A publication that was sent again two times, with another behind it, and its PUBACK.
abbrev published_item : Item
published_item = record { kind = 3; flags = 2; id = 5; body = 50 ∷ [] }

abbrev puback : FixedHeader
puback = record { kind = 4; flags = 0; body_length = 2 }

-- A PUBLISH of quality 2 to the topic "a" with identifier 7, and its release.
abbrev published : Memory
published = 0 ∷ 1 ∷ 97 ∷ 0 ∷ 7 ∷ 42 ∷ []

abbrev frame : FixedHeader
frame = record { kind = 3; flags = 4; body_length = 6 }

abbrev message : Publish
message = record {
  id = 7;
  topic = record { start = 2; len = 1 };
  payload = record { start = 5; len = 1 };
}

published-IsHeldPublish : IsHeldPublish (at_second 1) frame published 0 message published
unfolding qos_from_flags parse_publish get_string get_short get_data load_bytes
published-IsHeldPublish = record {
  publication = refl;
  quality = refl;
  consumed = 6;
  fields = refl;
  bytes = refl;
  id_fits = omega arith;
}

abbrev released : FixedHeader
released = record { kind = 6; flags = 2; body_length = 2 }

read_released : parse_var_header_id (0 ∷ 7 ∷ []) 0 2 ≡ some (record { id = 7 }, consumed 2)
unfolding parse_var_header_id read_var_header_id finish get_short ◌then_read◌ pure
read_released = refl

delivered_once_example :
    (on_publish (at_second 1) (waiting 0) frame published 0 >>= λ s1.
    on_publish (at_second 1) s1 frame published 0 >>= λ s2.
    on_pubrel (at_second 1) s2 released (0 ∷ 7 ∷ []) 0 >>= λ s3.
    on_pubrel (at_second 1) s3 released (0 ∷ 7 ∷ []) 0)
    ≡ some (record (waiting 0) {
      incoming = record { kind = 3; flags = 4; id = 7; body = published } ∷ [];
      written = id_frame 80 7 ∷ id_frame 80 7 ∷ id_frame 112 7 ∷ id_frame 112 7 ∷ [];
    })
unfolding matching
delivered_once_example =
    delivered_once (at_second 1) frame published 0 message published published-IsHeldPublish
      released (0 ∷ 7 ∷ []) 0 (consumed 2) read_released (waiting 0) refl refl

-- A PINGRESP of which one byte was read before, a PUBACK, and the first byte of a PUBLISH.
abbrev two_frames : List Frame
two_frames =
    record { kind = 13; flags = 0; body = [] }
    ∷ record { kind = 4; flags = 0; body = 0 ∷ 5 ∷ [] }
    ∷ []

abbrev no_locals : Locals
no_locals = record { frame = record { kind = 0; flags = 0; body_length = 0 }; frame_length = 0 }

receive-handle_all_example :
    receive (at_second 3) no_locals (waiting 0) (208 ∷ []) (0 ∷ 64 ∷ 2 ∷ 0 ∷ 5 ∷ 48 ∷ [])
    ≡ (handle_all (at_second 3) (waiting 0) two_frames (48 ∷ []) >>= λ self'. some (self', 48 ∷ []))
unfolding groups parse_frame
receive-handle_all_example =
    receive-handle_all (at_second 3) no_locals (waiting 0) (208 ∷ []) (0 ∷ 64 ∷ 2 ∷ 0 ∷ 5 ∷ 48 ∷ [])
      two_frames (48 ∷ []) refl
      ((omega arith, omega arith, omega arith), ((omega arith, omega arith, omega arith), tt))
      (record { header = no_locals.frame; frame_length = 2; result = wait }, refl, refl)
