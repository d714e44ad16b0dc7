-- ===== src/Mqtt/Packets/RoundTrip.antt =====
-- Each packet body of `Packets`, parsed after it was formatted.
use c_mx.Common.{ℕ, ◌+◌, ◌^◌, ◌≤◌, ◌<◌, some, List, [], ◌∷◌, ◌++◌}
use c_mx.Common.{length, length-append, append-nil, sym, arith, ◌≡◌, refl, ap}
use c_mx.Mqtt.Put.Laws.{Writes, >>-Writes, put_byte-Writes, put_short-Writes, put_string-Writes}
use c_mx.Mqtt.Put.Laws.{short_bytes, string_bytes}
use c_mx.Mqtt.Get.{bytes_of}
use c_mx.Mqtt.Get.Laws.{Reads, >>=-Reads, pure-Reads, get_byte-Reads, get_short-Reads}
use c_mx.Mqtt.Get.Laws.{get_string-Reads}
use c_mx.Mqtt.Packets.{Subscribe, read_subscribe, parse_subscribe, eval_subscribe, format_subscribe}
use c_mx.Mqtt.Packets.{Unsubscribe, read_unsubscribe, parse_unsubscribe, eval_unsubscribe}
use c_mx.Mqtt.Packets.{format_unsubscribe}
use c_mx.Mqtt.Packets.Laws.{Parses, filled, finish-Writes, slice-filled}

subscribe-Writes :
    (id qos : ℕ) (topic : List ℕ)
    → id < 2 ^ 16
    → qos < 2 ^ 8
    → length topic < 2 ^ 16
    → Writes (format_subscribe id topic qos) (short_bytes id ++ (string_bytes topic ++ (qos ∷ [])))
unfolding format_subscribe
subscribe-Writes id qos topic i q t =
    >>-Writes (put_short-Writes id i)
      (>>-Writes (put_string-Writes topic t) (put_byte-Writes qos q))

abbrev subscribed : ℕ → ℕ → List ℕ → ℕ → Subscribe
subscribed at id topic qos = record {
  id = id;
  topic = record { start = at + 2 + 2; len = length topic };
  qos = qos;
}

subscribe-Reads :
    (at id qos : ℕ) (topic : List ℕ)
    → id < 2 ^ 16
    → length topic < 2 ^ 16
    → Reads read_subscribe at
        (short_bytes id ++ (string_bytes topic ++ ((qos ∷ []) ++ [])))
        (subscribed at id topic qos)
unfolding read_subscribe
subscribe-Reads at id qos topic i t =
    >>=-Reads _ (get_short-Reads id i)
      (>>=-Reads _ (get_string-Reads topic t) (>>=-Reads _ (get_byte-Reads qos) pure-Reads))

-- A SUBSCRIBE body whose identifier, quality of service and topic length fit their fields,
-- formatted into a buffer with room for it: `mqtt_eval_subscribe` bytes are written and no
-- other byte changes. The parser told any length gets the identifier, the topic and the
-- quality of service back, and fails only if that length is more than the body's own.
pub parse_subscribe-format_subscribe :
    (id qos : ℕ) (topic front room : List ℕ) (at : ℕ)
    → id < 2 ^ 16
    → qos < 2 ^ 8
    → length topic < 2 ^ 16
    → at ≡ length front
    → eval_subscribe topic ≤ length room
    → (bytes : List ℕ) × (msg : Subscribe) × (length bytes ≡ eval_subscribe topic)
      × (format_subscribe id topic qos at (front ++ room)
          ≡ some (eval_subscribe topic, filled front room bytes))
      × Parses parse_subscribe (filled front room bytes) at (eval_subscribe topic) msg
      × (msg.id ≡ id)
      × (bytes_of (filled front room bytes) msg.topic ≡ topic)
      × (msg.qos ≡ qos)
unfolding eval_subscribe parse_subscribe
parse_subscribe-format_subscribe id qos topic front room at i q t e fits =
    let bytes = short_bytes id ++ (string_bytes topic ++ (qos ∷ [])) in
    let size : length bytes ≡ eval_subscribe topic =
      omega (arith, length-append topic (qos ∷ [])) in
    let (formats, parses) =
      finish-Writes front room (subscribe-Writes id qos topic i q t)
        (subscribe-Reads at id qos topic i t) e size fits in
    let topic_lies =
      slice-filled front room bytes (short_bytes id ++ short_bytes (length topic)) topic (qos ∷ [])
        (subscribed at id topic qos).topic refl (omega arith) refl in
    (bytes, subscribed at id topic qos, size, formats, parses, refl, topic_lies, refl)

unsubscribe-Writes :
    (id : ℕ) (topic : List ℕ)
    → id < 2 ^ 16
    → length topic < 2 ^ 16
    → Writes (format_unsubscribe id topic) (short_bytes id ++ string_bytes topic)
unfolding format_unsubscribe
unsubscribe-Writes id topic i t = >>-Writes (put_short-Writes id i) (put_string-Writes topic t)

abbrev unsubscribed : ℕ → ℕ → List ℕ → Unsubscribe
unsubscribed at id topic = record {
  id = id;
  topic = record { start = at + 2 + 2; len = length topic };
}

unsubscribe-Reads :
    (at id : ℕ) (topic : List ℕ)
    → id < 2 ^ 16
    → length topic < 2 ^ 16
    → Reads read_unsubscribe at (short_bytes id ++ string_bytes topic) (unsubscribed at id topic)
unfolding read_unsubscribe
unsubscribe-Reads at id topic i t =
    rw (← append-nil (short_bytes id ++ string_bytes topic))
      (>>=-Reads _ (get_short-Reads id i) (>>=-Reads _ (get_string-Reads topic t) pure-Reads))

-- An UNSUBSCRIBE body whose identifier and topic length fit their fields, formatted into a
-- buffer with room for it: `mqtt_eval_unsubscribe` bytes are written and no other byte changes.
-- The parser told any length gets the identifier and the topic back, and fails only if that
-- length is more than the body's own.
pub parse_unsubscribe-format_unsubscribe :
    (id : ℕ) (topic front room : List ℕ) (at : ℕ)
    → id < 2 ^ 16
    → length topic < 2 ^ 16
    → at ≡ length front
    → eval_unsubscribe topic ≤ length room
    → (bytes : List ℕ) × (msg : Unsubscribe) × (length bytes ≡ eval_unsubscribe topic)
      × (format_unsubscribe id topic at (front ++ room)
          ≡ some (eval_unsubscribe topic, filled front room bytes))
      × Parses parse_unsubscribe (filled front room bytes) at (eval_unsubscribe topic) msg
      × (msg.id ≡ id)
      × (bytes_of (filled front room bytes) msg.topic ≡ topic)
unfolding eval_unsubscribe parse_unsubscribe
parse_unsubscribe-format_unsubscribe id topic front room at i t e fits =
    let bytes = short_bytes id ++ string_bytes topic in
    let size : length bytes ≡ eval_unsubscribe topic = omega arith in
    let (formats, parses) =
      finish-Writes front room (unsubscribe-Writes id topic i t) (unsubscribe-Reads at id topic i t)
        e size fits in
    let topic_lies =
      slice-filled front room bytes (short_bytes id ++ short_bytes (length topic)) topic []
        (unsubscribed at id topic).topic
        (ap (λ (t : List ℕ). short_bytes id ++ (short_bytes (length topic) ++ t))
          (sym (append-nil topic)))
        (omega arith) refl in
    (bytes, unsubscribed at id topic, size, formats, parses, refl, topic_lies)
