-- ===== src/Mqtt/Connect.antt =====
-- The body of a CONNECT packet: `mqtt_parse_connect`, `mqtt_eval_connect` and
-- `mqtt_format_connect` of source/mqtt.c. An optional C string or buffer is `none` for the null pointer.
pub mod Size
mod Tests
use c_mx.Common.{
  ℕ, ◌+◌, ◌*◌, ◌/◌, ◌^◌, Bool, true, false, not, Option, none, some, List, [], ◌∷◌, length,
}
use c_mx.Common.{u64, ltb, ◌==◌, if◌then◌else◌, bit_and, bit_or}
use c_mx.Mqtt.Put.{Memory, Writer, ◌>>◌, only_some, put_byte, put_short, put_data, put_string}
use c_mx.Mqtt.Get.{Slice, Reader, ◌>>=◌, pure, get_byte, get_short, get_data, get_string}
use c_mx.Mqtt.Packets.{ParseResult, finish}

-- `struct mqtt_connect`
pub record Connect : Type 0 where
  pub protocol_name : Slice
  pub protocol_level : ℕ
  pub clean_session : Bool
  pub keep_alive : ℕ
  pub will_qos : ℕ
  pub will_retain : Bool
  pub will_topic : Slice
  pub will_msg : Slice
  pub client_id : Slice
  pub user_name : Slice
  pub password : Slice

-- `flags & MASK` as a condition.
pub has_flag : ℕ → ℕ → Bool
has_flag flags mask = not (bit_and flags mask == 0)

-- A length of two bytes and the data behind it.
pub get_counted : Reader Slice
get_counted = do len ← get_short; get_data len

-- The fields that the flags announce. Those that are not there stay as they were `before`.
pub read_will : ℕ → Connect → Reader Connect
read_will flags before =
    if has_flag flags 0x4
    then (get_string >>= λ topic.
        get_counted >>= λ msg. pure (record before { will_topic = topic; will_msg = msg }))
    else pure before

pub read_user_name : ℕ → Connect → Reader Connect
read_user_name flags before =
    if has_flag flags 0x80
    then (get_string >>= λ name. pure (record before { user_name = name }))
    else pure before

pub read_password : ℕ → Connect → Reader Connect
read_password flags before =
    if has_flag flags 0x40
    then (get_counted >>= λ password. pure (record before { password = password }))
    else pure before

pub read_connect : Connect → Reader Connect
read_connect before = do
  protocol_name ← get_string
  protocol_level ← get_byte
  flags ← get_byte
  keep_alive ← get_short
  client_id ← get_string
  let head = record before {
    protocol_name = protocol_name;
    protocol_level = protocol_level;
    clean_session = has_flag flags 0x2;
    will_retain = has_flag flags 0x20;
    will_qos = bit_and flags 0x18 / 2 ^ 3;
    keep_alive = keep_alive;
    client_id = client_id;
  }
  with_will ← read_will flags head
  with_name ← read_user_name flags with_will
  read_password flags with_name

-- `before` is what the structure holds before the call.
pub parse_connect : Connect → Memory → ℕ → ℕ → Option (Connect × ParseResult)
parse_connect before = finish (read_connect before)

-- `if (str) body_size += MQTT_STR_LENGTH_SIZE + strlen(str);`
pub add_string : Option (List ℕ) → ℕ → ℕ
add_string none body_size = body_size
add_string (some str) body_size = u64 (body_size + (2 + length str))

-- `if (len > 0) body_size += MQTT_STR_LENGTH_SIZE + len;`
pub add_counted : ℕ → ℕ → ℕ
add_counted len body_size = if ltb 0 len then u64 (body_size + (2 + len)) else body_size

pub eval_connect : Option (List ℕ) → Option (List ℕ) → ℕ → Option (List ℕ) → ℕ → ℕ
eval_connect client_id will_topic will_msg_len user_name password_len = add_counted password_len (
    add_string user_name
      (add_counted will_msg_len (add_string will_topic (add_string client_id 10))))

-- The arguments of `mqtt_format_connect`. The lengths stand beside the buffers.
pub record Login : Type 0 where
  pub clean_session : Bool
  pub keep_alive : ℕ
  pub client_id : List ℕ
  pub will_topic : Option (List ℕ)
  pub will_msg : Option (List ℕ)
  pub will_msg_len : ℕ
  pub will_retain : Bool
  pub will_qos : ℕ
  pub user_name : Option (List ℕ)
  pub password : Option (List ℕ)
  pub password_len : ℕ

pub is_some : Option (List ℕ) → Bool
is_some none = false
is_some (some bytes) = true

-- `will_topic && will_msg`
pub has_will : Option (List ℕ) → Option (List ℕ) → Bool
has_will none msg = false
has_will (some topic) none = false
has_will (some topic) (some msg) = true

-- The byte of flags. `flags` is an `unsigned char`.
pub will_flags : ℕ → Bool → ℕ → ℕ
will_flags will_qos will_retain flags =
    let flags' = bit_or (bit_or flags 0x4) (bit_and (will_qos * 2 ^ 3) 0x18) in
    if will_retain then bit_or flags' 0x20 else flags'

pub connect_flags : Login → ℕ
connect_flags l =
    let f0 = if l.clean_session then bit_or 0 0x2 else 0 in
    let f1 =
      if has_will l.will_topic l.will_msg then will_flags l.will_qos l.will_retain f0 else f0 in
    let f2 = if is_some l.password then bit_or f1 0x40 else f1 in
    if is_some l.user_name then bit_or f2 0x80 else f2

-- `MQTT_PROTOCOL_NAME`
abbrev pub protocol : List ℕ
protocol = 77 ∷ 81 ∷ 84 ∷ 84 ∷ []

pub put_counted : ℕ → List ℕ → Writer
put_counted len bytes = put_short len >> put_data bytes len

pub format_connect : Login → Writer
format_connect l = do
  put_string protocol
  put_byte 0x4
  put_byte (connect_flags l)
  put_short l.keep_alive
  put_string l.client_id
  only_some l.will_topic put_string
  only_some l.will_msg (put_counted l.will_msg_len)
  only_some l.user_name put_string
  only_some l.password (put_counted l.password_len)
