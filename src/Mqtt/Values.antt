-- ===== src/Mqtt/Values.antt =====
-- Messages and configurations as values, and packet names: `struct mqtt_msg`, `struct mqtt_conf` and
-- `mqtt_packet_name` of source/mqtt.c. A null pointer is `none`; an owned block is its bytes, since
-- `xstrdup` and `xmemdup` copy all of them; copying from a null pointer, or more than is there, is `none`.
use c_mx.Common.{
  ℕ, ◌+◌, ◌*◌, ◌^◌, ◌<◌, Bool, true, false, Option, none, some, List, [], ◌∷◌, length, take,
  take_all, leb, load_bytes, ◌>>=◌,
}
use c_mx.Common.{ltb, u8, u16, ◌==◌, if◌then◌else◌, arith, ◌≡◌, refl, ap, Bool-cases, inl, inr}
mod Tests

-- `struct mqtt_msg`
pub record Msg : Type 0 where
  pub topic : Option (List ℕ)
  pub payload : Option (List ℕ)
  pub payload_len : ℕ
  pub qos : ℕ
  pub retain : Bool

pub msg_init : Msg
msg_init = record { topic = none; payload = none; payload_len = 0; qos = 0; retain = false }

pub msg_clean : Msg → Msg
msg_clean self = record self { topic = none; payload = none }

-- The quality of service is cut to an `unsigned char`.
pub msg_create : List ℕ → List ℕ → ℕ → ℕ → Bool → Option Msg
msg_create topic payload payload_len qos retain = do
  bytes ← load_bytes payload 0 payload_len
  some (record {
    topic = some topic;
    payload = some bytes;
    payload_len = payload_len;
    qos = u8 qos;
    retain = retain;
  })

pub msg_copy : Msg → Msg → Option Msg
msg_copy self other = do
  topic ← other.topic
  payload ← other.payload
  bytes ← load_bytes payload 0 other.payload_len
  some (record {
    topic = some topic;
    payload = some bytes;
    payload_len = other.payload_len;
    qos = other.qos;
    retain = other.retain;
  })

-- `mqtt_msg_move`: both structures as it leaves them.
pub msg_move : Msg → Msg → Msg × Msg
msg_move self other = (
  record {
    topic = other.topic;
    payload = other.payload;
    payload_len = other.payload_len;
    qos = other.qos;
    retain = other.retain;
  },
  record other { topic = none; payload = none; payload_len = 0 },
)

-- `struct mqtt_conf`
pub record Conf : Type 0 where
  pub client_id : Option (List ℕ)
  pub user_name : Option (List ℕ)
  pub password : Option (List ℕ)
  pub password_len : ℕ
  pub keep_alive : ℕ

pub conf_init : Conf
conf_init = record {
  client_id = none;
  user_name = none;
  password = none;
  password_len = 0;
  keep_alive = 180;
}

pub conf_clean : Conf → Conf
conf_clean self = record self { client_id = none; user_name = none; password = none }

-- `if (str) field = xstrdup(str);`
pub or_old : Option (List ℕ) → Option (List ℕ) → Option (List ℕ)
or_old none old = old
or_old (some str) old = some str

-- `if (password && (password_len > 0)) …`: the password and its length.
pub new_password : Option (List ℕ) → ℕ → Option (List ℕ) → ℕ → Option (Option (List ℕ) × ℕ)
new_password none n old old_len = some (old, old_len)
new_password (some bytes) n old old_len =
    if ltb 0 n
    then (load_bytes bytes 0 n >>= λ block. some (some block, n))
    else some (old, old_len)

-- `mqtt_conf_create`
pub conf_create : Option (List ℕ) → ℕ → Option (List ℕ) → Option (List ℕ) → ℕ → Option Conf
conf_create client_id keep_alive user_name password password_len = do
  let self = conf_init
  (block, len) ← new_password password password_len self.password self.password_len
  some (record self {
    client_id = or_old client_id self.client_id;
    keep_alive = keep_alive;
    user_name = or_old user_name self.user_name;
    password = block;
    password_len = len;
  })

-- `mqtt_conf_copy`
pub conf_copy : Conf → Conf → Option Conf
conf_copy self other = do
  (block, len) ← new_password other.password other.password_len self.password self.password_len
  some (record self {
    client_id = or_old other.client_id self.client_id;
    keep_alive = other.keep_alive;
    user_name = or_old other.user_name self.user_name;
    password = block;
    password_len = len;
  })

-- `mqtt_conf_move`: the length of the other's password stays.
pub conf_move : Conf → Conf → Conf × Conf
conf_move self other = (
  record {
    client_id = other.client_id;
    keep_alive = other.keep_alive;
    user_name = other.user_name;
    password = other.password;
    password_len = other.password_len;
  },
  record other { client_id = none; user_name = none; password = none },
)

-- The password's block is as long as its length says.
abbrev pub password_size : Option (List ℕ) → ℕ
password_size none = 0
password_size (some bytes) = length bytes

-- The password that a new configuration has: an empty one is none.
abbrev pub password_of : Option (List ℕ) → Option (List ℕ)
password_of none = none
password_of (some []) = none
password_of (some (b ∷ bytes)) = some (b ∷ bytes)

or_old-none : (p : Option (List ℕ)) → or_old p none ≡ p
unfolding or_old
or_old-none none = refl
or_old-none (some bytes) = refl

password_lem :
    (password : Option (List ℕ)) (n : ℕ)
    → password_size password ≡ n
    → new_password password n none 0 ≡ some (password_of password, n)
unfolding new_password
password_lem none n e = ap (λ k. some (none, k)) e
password_lem (some []) n e =
    let empty : ltb 0 n ≡ false = ground arith in rw empty (ap (λ k. some (none, k)) e)
password_lem (some (b ∷ bytes)) n e =
    let there : ltb 0 n ≡ true = ground arith in
    let whole : load_bytes (b ∷ bytes) 0 n ≡ some (b ∷ bytes) =
      (let inside : leb (0 + n) (length (b ∷ bytes)) ≡ true = ground arith in
        unfold load_bytes in rw inside (ap some (take_all (b ∷ bytes) n (omega arith)))) in
    rw (there, whole) refl

kept_password_lem :
    (password : Option (List ℕ)) (n : ℕ)
    → password_size password ≡ n
    → new_password (password_of password) n none 0 ≡ some (password_of password, n)
kept_password_lem none n e = password_lem none n e
kept_password_lem (some []) n e = password_lem none n e
kept_password_lem (some (b ∷ bytes)) n e = password_lem (some (b ∷ bytes)) n e

-- A configuration created from any arguments, with a password of the stated length, has the client identifier, the
-- keep-alive time and the user name that were given, and the password with its length unless that is 0; no access is out
-- of bounds, and a copy of it over a configuration that was just initialised is the same configuration.
pub conf_copy-conf_create :
    (client_id user_name password : Option (List ℕ)) (keep_alive n : ℕ)
    → password_size password ≡ n
    → let conf : Conf = record {
      client_id = client_id;
      keep_alive = keep_alive;
      user_name = user_name;
      password = password_of password;
      password_len = n;
    } in
      (conf_create client_id keep_alive user_name password n ≡ some conf)
      × (conf_copy conf_init conf ≡ some conf)
unfolding conf_copy conf_create conf_init
conf_copy-conf_create client_id user_name password keep_alive n e = (
  rw (password_lem password n e, or_old-none client_id, or_old-none user_name) refl,
  rw (kept_password_lem password n e, or_old-none client_id, or_old-none user_name) refl,
)

-- Copying over a configuration that is in use: where the other has no client identifier, user name or
-- password, the old one stays.
pub conf_copy_keeps :
    (self other : Conf)
    → other.client_id ≡ none
    → other.user_name ≡ none
    → other.password ≡ none
    → conf_copy self other ≡ some (record self { keep_alive = other.keep_alive })
unfolding conf_copy or_old new_password
conf_copy_keeps self other c u p = rw (c, u, p)
