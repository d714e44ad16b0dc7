-- ===== src/Mqtt/Tests.antt =====
-- The theorems on MQTT packets at concrete inputs, and runs of the functions.
use c_mx.Common.{ℕ, ◌+◌, ◌-◌, ◌^◌, ◌%◌, ◌≤◌, ◌<◌, true, false, some, List, [], ◌∷◌, ◌++◌, length}
use c_mx.Common.{if◌then◌else◌, leb, arith, ◌≡◌, refl}
use c_mx.Mqtt.Put.{Memory}
use c_mx.Mqtt.Get.{bytes_of}
use c_mx.Mqtt.Length.{Decoded, need_more, invalid, decoded, decode_length, encode_length}
use c_mx.Mqtt.Length.RoundTrip.{Says, decode-encode, decode-encode_too_large, decode_length-Says}
use c_mx.Mqtt.Frame.{FixedHeader, Parsed, wait, body_at, parse_frame, format_frame}
use c_mx.Mqtt.Frame.RoundTrip.{parse_frame-format_frame}
use c_mx.Mqtt.Packets.{Subscribe, parse_subscribe, eval_subscribe, format_subscribe}
use c_mx.Mqtt.Packets.{Unsubscribe, parse_unsubscribe, eval_unsubscribe, format_unsubscribe}
use c_mx.Mqtt.Packets.{parse_connack, format_connack, parse_suback, format_suback}
use c_mx.Mqtt.Packets.Laws.{Parses, filled}
use c_mx.Mqtt.Packets.RoundTrip.{parse_subscribe-format_subscribe}
use c_mx.Mqtt.Packets.RoundTrip.{parse_unsubscribe-format_unsubscribe}
use c_mx.Mqtt.Packets.Acks.{parse_connack-format_connack, parse_suback-format_suback}
use c_mx.Mqtt.Publish.{Publish, parse_publish, eval_publish, format_publish}
use c_mx.Mqtt.Publish.RoundTrip.{publish_bytes, format_publish_cuts, parse_publish-format_publish}

abbrev front : List ℕ
front = 255 ∷ []

abbrev room : List ℕ
room = 0 ∷ 0 ∷ 0 ∷ 0 ∷ 0 ∷ 0 ∷ 0 ∷ 0 ∷ 0 ∷ 0 ∷ 0 ∷ 0 ∷ 7 ∷ []

abbrev topic : List ℕ
topic = b'a' ∷ b'/' ∷ b'b' ∷ []

abbrev payload : List ℕ
payload = 1 ∷ 2 ∷ []

abbrev stale : Publish
stale = record {
  id = 9;
  topic = record { start = 0; len = 0 };
  payload = record { start = 0; len = 0 };
}

decode_321 : decode_length (193 ∷ 2 ∷ []) 0 2 ≡ some (decoded 2 321)
unfolding decode_length
decode_321 = refl

decode-encode_example :
    (size : ℕ) × (memory : Memory) × (encode_length true 321 1 (front ++ room)
      ≡ some (size, memory))
    × (encode_length false 321 1 (front ++ room) ≡ some (size, front ++ room))
    × (1 ≤ size)
    × (size ≤ 4)
    × ((len : ℕ)
        → decode_length memory 1 len ≡ some (if leb size len then decoded size 321 else need_more))
decode-encode_example = decode-encode front room 1 321 refl (omega arith) (omega arith)

decode-encode_too_large_example :
    (size : ℕ) × (memory : Memory) × (encode_length true 268435456 1 (front ++ room)
      ≡ some (size, memory))
    × (5 ≤ size)
    × ((len : ℕ) → decode_length memory 1 len ≡ some (if leb len 4 then need_more else invalid))
decode-encode_too_large_example =
    decode-encode_too_large front room 1 268435456 refl (omega arith) (omega arith) (omega arith)

decode_length-Says_example : (r : Decoded) × (decode_length (193 ∷ 2 ∷ []) 0 2 ≡ some r) × Says 2 r
decode_length-Says_example = decode_length-Says (193 ∷ 2 ∷ []) 0 2 (omega arith)

parse_frame-format_frame_example :
    (size : ℕ) × (memory : Memory) × (format_frame 3 2 payload 2 1 (front ++ room)
      ≡ some (size, memory))
    × (bytes_of memory (record { start = 1 + (size - 2); len = 2 }) ≡ payload)
    × ((before : FixedHeader) (frame_length len : ℕ)
        → size ≤ len
        → parse_frame before frame_length memory 1 len
          ≡ some (record {
            header = record { kind = 3; flags = 2; body_length = 2 };
            frame_length = size;
            result = body_at (size - 2);
          }))
    × ((before : FixedHeader) (frame_length len : ℕ)
        → len < size
        → (p : Parsed) × (parse_frame before frame_length memory 1 len ≡ some p)
          × (p.result ≡ wait)
          × (len < p.frame_length)
          × (p.frame_length ≤ size))
parse_frame-format_frame_example =
    parse_frame-format_frame 3 2 payload front room 1 (omega arith) (omega arith) (omega arith) refl
      (omega arith)

parse_subscribe-format_subscribe_example :
    (bytes : List ℕ) × (msg : Subscribe) × (length bytes ≡ eval_subscribe topic)
    × (format_subscribe 300 topic 1 1 (front ++ room)
        ≡ some (eval_subscribe topic, filled front room bytes))
    × Parses parse_subscribe (filled front room bytes) 1 (eval_subscribe topic) msg
    × (msg.id ≡ 300)
    × (bytes_of (filled front room bytes) msg.topic ≡ topic)
    × (msg.qos ≡ 1)
unfolding eval_subscribe
parse_subscribe-format_subscribe_example =
    parse_subscribe-format_subscribe 300 1 topic front room 1 (omega arith) (omega arith)
      (omega arith) refl (omega arith)

parse_unsubscribe-format_unsubscribe_example :
    (bytes : List ℕ) × (msg : Unsubscribe) × (length bytes ≡ eval_unsubscribe topic)
    × (format_unsubscribe 300 topic 1 (front ++ room)
        ≡ some (eval_unsubscribe topic, filled front room bytes))
    × Parses parse_unsubscribe (filled front room bytes) 1 (eval_unsubscribe topic) msg
    × (msg.id ≡ 300)
    × (bytes_of (filled front room bytes) msg.topic ≡ topic)
unfolding eval_unsubscribe
parse_unsubscribe-format_unsubscribe_example =
    parse_unsubscribe-format_unsubscribe 300 topic front room 1 (omega arith) (omega arith) refl
      (omega arith)

parse_connack-format_connack_example :
    (bytes : List ℕ) × (length bytes ≡ 2)
    × (format_connack true 5 1 (front ++ room) ≡ some (2, filled front room bytes))
    × Parses parse_connack
        (filled front room bytes)
        1
        2
        (record { session_present = true; return_code = 5 })
parse_connack-format_connack_example =
    parse_connack-format_connack true 5 front room 1 (omega arith) refl (omega arith)

parse_suback-format_suback_example :
    (bytes : List ℕ) × (length bytes ≡ 3)
    × (format_suback 300 128 1 (front ++ room) ≡ some (3, filled front room bytes))
    × Parses parse_suback (filled front room bytes) 1 3 (record { id = 300; return_code = 128 })
parse_suback-format_suback_example =
    parse_suback-format_suback 300 128 front room 1 (omega arith) (omega arith) refl (omega arith)

format_publish_cuts_example :
    (size : ℕ) × (format_publish 1 300 topic payload 2 1 (front ++ room)
      ≡ some (size, filled front room (publish_bytes 1 300 topic payload)))
    × (size + 2 ≡ eval_publish 1 topic 2 + 2 % 2 ^ 16)
unfolding eval_publish
format_publish_cuts_example =
    format_publish_cuts 1 300 topic payload front room 1 (omega arith) (omega arith) (omega arith)
      refl (omega arith)

parse_publish-format_publish_example :
    (memory : List ℕ) × (msg : Publish) × (format_publish 1 300 topic payload 2 1 (front ++ room)
      ≡ some (eval_publish 1 topic 2, memory))
    × (parse_publish stale memory 1 (eval_publish 1 topic 2) 1 ≡ some (msg, eval_publish 1 topic 2))
    × (msg.id ≡ 300)
    × (bytes_of memory msg.topic ≡ topic)
    × (bytes_of memory msg.payload ≡ payload)
unfolding eval_publish
parse_publish-format_publish_example =
    parse_publish-format_publish 1 300 topic payload front room 1 stale (omega arith) (omega arith)
      (omega arith) refl (omega arith)
