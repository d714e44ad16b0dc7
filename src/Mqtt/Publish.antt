-- ===== src/Mqtt/Publish.antt =====
-- The body of a PUBLISH packet: `mqtt_parse_publish`, `mqtt_eval_publish` and
-- `mqtt_format_publish` of source/mqtt.c.
pub mod RoundTrip
use c_mx.Common.{ℕ, ◌+◌, ◌-◌, ◌^◌, Option, some, List, length, u16, u64, ltb, if◌then◌else◌, ◌>>=◌}
use c_mx.Mqtt.Put.{Memory, Writer, ◌>>◌, only_if, put_short, put_data, put_string}
use c_mx.Mqtt.Get.{Slice, Reader, pure, get_short, get_data, get_string}

-- `struct mqtt_publish`
pub record Publish : Type 0 where
  pub id : ℕ
  pub topic : Slice
  pub payload : Slice

-- `before` is what the structure holds before the call: without a quality of service the
-- identifier is left as it is. The subtraction of `size_t` wraps, and `payload_len` is an
-- `unsigned short`. The number is the returned offset.
unfoldable pub parse_publish : Publish → Memory → ℕ → ℕ → ℕ → Option (Publish × ℕ)
parse_publish before memory at length qos = do
  (topic, n) ← get_string memory at
  (id, k) ← (if ltb 0 qos then get_short else pure before.id) memory (at + n)
  (payload, m) ← get_data (u16 (u64 (length + 2 ^ 64 - (n + k)))) memory (at + (n + k))
  some (record { id = id; topic = topic; payload = payload }, n + k + m)

unfoldable pub eval_publish : ℕ → List ℕ → ℕ → ℕ
eval_publish qos topic payload_len =
    let head = u64 (0 + (2 + length topic)) in
    let head' = if ltb 0 qos then u64 (head + 2) else head in u64 (head' + payload_len)

-- `mqtt_put_data` takes the `size_t` `payload_len` as an `unsigned short`.
pub format_publish : ℕ → ℕ → List ℕ → List ℕ → ℕ → Writer
format_publish qos id topic payload payload_len = do
  put_string topic
  only_if (ltb 0 qos) (put_short id)
  put_data payload payload_len
