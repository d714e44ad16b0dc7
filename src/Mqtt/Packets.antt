-- ===== src/Mqtt/Packets.antt =====
-- Bodies of the MQTT packets with a fixed set of fields, as source/mqtt.c formats and parses them:
-- the packet identifier alone, CONNACK, SUBSCRIBE, SUBACK, UNSUBSCRIBE and UNSUBACK.
pub mod Laws
pub mod Acks
pub mod RoundTrip
use c_mx.Common.{ℕ, ◌+◌, Bool, not, Option, some, List, length, u64, ltb, ◌==◌}
use c_mx.Common.{if◌then◌else◌, bit_and, bit_or}
use c_mx.Common.{◌>>=◌ as and_then}
use c_mx.Mqtt.Put.{Memory, Writer, ◌>>◌, put_byte, put_short, put_string}
use c_mx.Mqtt.Get.{Slice, Reader, ◌>>=◌, pure, get_byte, get_short, get_string}

-- The `ssize_t` of the parsers: -1, or the offset behind the last field.
pub data ParseResult : Type 0 where
  failed : ParseResult
  consumed : ℕ → ParseResult

-- The end of these parsers: `if (offset < length) return -1; return offset;`. The structure
-- is filled in either case.
unfoldable pub finish : {A : Type 0} → Reader A → Memory → ℕ → ℕ → Option (A × ParseResult)
finish r memory at length =
    and_then (r memory at)
      λ (a, offset). some (a, if ltb offset length then failed else consumed offset)

-- `struct mqtt_var_header_id`
pub record VarHeaderId : Type 0 where
  pub id : ℕ

unfoldable pub read_var_header_id : Reader VarHeaderId
read_var_header_id = do id ← get_short; pure (record { id = id })

unfoldable pub parse_var_header_id : Memory → ℕ → ℕ → Option (VarHeaderId × ParseResult)
parse_var_header_id = finish read_var_header_id

pub format_var_header_id : ℕ → Writer
format_var_header_id id = put_short id

-- `struct mqtt_connack`
pub record Connack : Type 0 where
  pub session_present : Bool
  pub return_code : ℕ

pub read_connack : Reader Connack
read_connack = do
  flags ← get_byte
  code ← get_byte
  pure (record { session_present = not (bit_and flags 0x1 == 0); return_code = code })

pub parse_connack : Memory → ℕ → ℕ → Option (Connack × ParseResult)
parse_connack = finish read_connack

pub format_connack : Bool → ℕ → Writer
format_connack session_present return_code =
    put_byte (if session_present then bit_or 0 0x1 else 0) >> put_byte return_code

-- `struct mqtt_subscribe`
pub record Subscribe : Type 0 where
  pub id : ℕ
  pub topic : Slice
  pub qos : ℕ

pub read_subscribe : Reader Subscribe
read_subscribe = do
  id ← get_short
  topic ← get_string
  qos ← get_byte
  pure (record { id = id; topic = topic; qos = qos })

pub parse_subscribe : Memory → ℕ → ℕ → Option (Subscribe × ParseResult)
parse_subscribe = finish read_subscribe

unfoldable pub eval_subscribe : List ℕ → ℕ
eval_subscribe topic = u64 (u64 (2 + u64 (2 + length topic)) + 1)

pub format_subscribe : ℕ → List ℕ → ℕ → Writer
format_subscribe id topic qos = do put_short id; put_string topic; put_byte qos

-- `struct mqtt_suback`
pub record Suback : Type 0 where
  pub id : ℕ
  pub return_code : ℕ

pub read_suback : Reader Suback
read_suback = do id ← get_short; code ← get_byte; pure (record { id = id; return_code = code })

pub parse_suback : Memory → ℕ → ℕ → Option (Suback × ParseResult)
parse_suback = finish read_suback

pub format_suback : ℕ → ℕ → Writer
format_suback id return_code = put_short id >> put_byte return_code

-- `struct mqtt_unsubscribe`
pub record Unsubscribe : Type 0 where
  pub id : ℕ
  pub topic : Slice

pub read_unsubscribe : Reader Unsubscribe
read_unsubscribe = do id ← get_short; topic ← get_string; pure (record { id = id; topic = topic })

pub parse_unsubscribe : Memory → ℕ → ℕ → Option (Unsubscribe × ParseResult)
parse_unsubscribe = finish read_unsubscribe

unfoldable pub eval_unsubscribe : List ℕ → ℕ
eval_unsubscribe topic = u64 (2 + u64 (2 + length topic))

pub format_unsubscribe : ℕ → List ℕ → Writer
format_unsubscribe id topic = put_short id >> put_string topic

-- `struct mqtt_unsuback`
pub record Unsuback : Type 0 where
  pub id : ℕ

pub read_unsuback : Reader Unsuback
read_unsuback = do id ← get_short; pure (record { id = id })

pub parse_unsuback : Memory → ℕ → ℕ → Option (Unsuback × ParseResult)
parse_unsuback = finish read_unsuback

pub format_unsuback : ℕ → Writer
format_unsuback id = put_short id
