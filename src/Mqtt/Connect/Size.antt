-- ===== src/Mqtt/Connect/Size.antt =====
-- The bytes that `mqtt_format_connect` of source/mqtt.c writes, against `mqtt_eval_connect`.
use c_mx.Common.{
  ℕ, zero, suc, ◌+◌, ◌*◌, ◌^◌, ◌≤◌, ◌<◌, Bool, true, false, Option, none, some, List, [], ◌∷◌, ◌++◌,
  length, take,
}
use c_mx.Common.{
  take_all, length-append, u16, ltb, if◌then◌else◌, bit_and, bit_or, or-lt-pow, arith, ◌≡◌, sym, ap,
  ◌∙◌, subst,
}
use c_mx.Mqtt.Put.{◌>>◌, only_some, put_string, put_short, put_data}
use c_mx.Mqtt.Put.Laws.{
  Writes, >>-Writes, done-Writes, put_byte-Writes, put_short-Writes, put_data-Writes,
}
use c_mx.Mqtt.Put.Laws.{put_string-Writes, Writes-append, short_bytes, string_bytes}
use c_mx.Mqtt.Packets.Laws.{filled}
use c_mx.Mqtt.Connect.{
  Login, connect_flags, will_flags, is_some, has_will, put_counted, format_connect,
}
use c_mx.Mqtt.Connect.{eval_connect, add_string, add_counted, protocol}

-- The parts that may be missing.
abbrev pub some_string : Option (List ℕ) → List ℕ
some_string none = []
some_string (some str) = string_bytes str

-- The strings fit their length fields, and each buffer has the length that stands beside it, above 0.
pub record IsLogin (l : Login) : Type 0 where
  pub qos_small : l.will_qos < 4
  pub keep_alive_fits : l.keep_alive < 2 ^ 16
  pub client_fits : length l.client_id < 2 ^ 16
  pub topic_fits : length (some_string l.will_topic) < 2 ^ 16 + 2
  pub name_fits : length (some_string l.user_name) < 2 ^ 16 + 2
  pub msg_fits : length (some_string l.will_msg) < 2 ^ 16 + 2
  pub password_fits : length (some_string l.password) < 2 ^ 16 + 2
  pub msg_counted :
      length (some_string l.will_msg) ≡ (if ltb 0 l.will_msg_len then 2 + l.will_msg_len else 0)
  pub password_counted :
      length (some_string l.password) ≡ (if ltb 0 l.password_len then 2 + l.password_len else 0)

abbrev pub connect_bytes : Login → List ℕ
connect_bytes l =
    string_bytes protocol
    ++ ((4 ∷ [])
        ++ ((connect_flags l ∷ [])
            ++ (short_bytes l.keep_alive
                ++ (string_bytes l.client_id
                    ++ (some_string l.will_topic
                        ++ (some_string l.will_msg
                            ++ (some_string l.user_name ++ some_string l.password)))))))

some_string-Writes :
    (p : Option (List ℕ))
    → length (some_string p) < 2 ^ 16 + 2
    → Writes (only_some p put_string) (some_string p)
some_string-Writes none h = done-Writes
some_string-Writes (some str) h = put_string-Writes str (omega arith)

some_counted-Writes :
    (p : Option (List ℕ)) (n : ℕ)
    → length (some_string p) < 2 ^ 16 + 2
    → length (some_string p) ≡ (if ltb 0 n then 2 + n else 0)
    → Writes (only_some p (put_counted n)) (some_string p)
unfolding put_counted
some_counted-Writes none n h e = done-Writes
some_counted-Writes (some bytes) n h e =
    let size : n ≡ length bytes = ground arith in
    let whole : take (u16 n) bytes ≡ bytes = take_all bytes (u16 n) (omega arith) in
    let front : short_bytes n ≡ short_bytes (length bytes) = ap short_bytes size in
    subst (Writes (put_short n >> put_data bytes n))
      (ap (λ t. short_bytes n ++ t) whole ∙ ap (λ t. t ++ bytes) front)
      (>>-Writes (put_short-Writes n (omega arith)) (put_data-Writes bytes n (omega arith)))

if-lt : (b : Bool) (x y : ℕ) → x < 2 ^ 8 → y < 2 ^ 8 → (if b then x else y) < 2 ^ 8
if-lt true x y p q = p
if-lt false x y p q = q

qos-lt : (qos : ℕ) → qos < 4 → bit_and (qos * 2 ^ 3) 24 < 2 ^ 8
qos-lt zero h = omega arith
qos-lt (suc zero) h = omega arith
qos-lt (suc (suc zero)) h = omega arith
qos-lt (suc (suc (suc zero))) h = omega arith
qos-lt (suc (suc (suc (suc qos)))) h = absurd (omega arith)

with_flag :
    (b : Bool) (x flag : ℕ) → x < 2 ^ 8 → flag < 2 ^ 8 → (if b then bit_or x flag else x) < 2 ^ 8
with_flag b x flag p q = if-lt b (bit_or x flag) x (or-lt-pow 8 x flag p q) p

connect_flags-lt : (l : Login) → l.will_qos < 4 → connect_flags l < 2 ^ 8
unfolding connect_flags will_flags
connect_flags-lt l q =
    let f0 = (if l.clean_session then bit_or 0 0x2 else 0) in
    let p0 : f0 < 2 ^ 8 = with_flag l.clean_session 0 0x2 (omega arith) (omega arith) in
    let p1 = or-lt-pow 8 f0 0x4 p0 (omega arith) in
    let p2 =
      or-lt-pow 8 (bit_or f0 0x4) (bit_and (l.will_qos * 2 ^ 3) 0x18) p1 (qos-lt l.will_qos q) in
    let p3 =
      with_flag l.will_retain (bit_or (bit_or f0 0x4) (bit_and (l.will_qos * 2 ^ 3) 0x18)) 0x20 p2
        (omega arith) in
    with_flag (is_some l.user_name) _ 0x80
      (with_flag (is_some l.password) _ 0x40 (if-lt (has_will l.will_topic l.will_msg) _ f0 p3 p0)
        (omega arith))
      (omega arith)

connect-Writes : (l : Login) → IsLogin l → Writes (format_connect l) (connect_bytes l)
unfolding format_connect
connect-Writes l v = >>-Writes (put_string-Writes protocol (omega arith)) (
    >>-Writes (put_byte-Writes 4 (omega arith)) (
      >>-Writes (put_byte-Writes (connect_flags l) (connect_flags-lt l v.qos_small)) (
        >>-Writes (put_short-Writes l.keep_alive v.keep_alive_fits) (
          >>-Writes (put_string-Writes l.client_id v.client_fits) (
            >>-Writes (some_string-Writes l.will_topic v.topic_fits) (
              >>-Writes (some_counted-Writes l.will_msg l.will_msg_len v.msg_fits v.msg_counted) (
                >>-Writes (some_string-Writes l.user_name v.name_fits) (
                  some_counted-Writes l.password l.password_len v.password_fits
                    v.password_counted))))))))

add_string_lem :
    (p : Option (List ℕ)) (n : ℕ)
    → length (some_string p) < 2 ^ 16 + 2
    → n < 2 ^ 20
    → add_string p n ≡ n + length (some_string p)
unfolding add_string
add_string_lem none n h s = omega arith
add_string_lem (some str) n h s = omega arith

add_counted_lem :
    (p : Option (List ℕ)) (k n : ℕ)
    → length (some_string p) ≡ (if ltb 0 k then 2 + k else 0)
    → length (some_string p) < 2 ^ 16 + 2
    → n < 2 ^ 20
    → add_counted k n ≡ n + length (some_string p)
unfolding add_counted
add_counted_lem p k n e h s = ground arith

length-connect_bytes :
    (l : Login)
    → length (connect_bytes l)
      ≡ 12
        + length l.client_id
        + length (some_string l.will_topic)
        + length (some_string l.will_msg)
        + length (some_string l.user_name)
        + length (some_string l.password)
length-connect_bytes l =
    let name = some_string l.user_name in
    let msg = some_string l.will_msg in
    let topic = some_string l.will_topic in
    omega (
      arith,
      length-append name (some_string l.password),
      length-append msg (name ++ some_string l.password),
      length-append topic (msg ++ (name ++ some_string l.password)),
      length-append l.client_id (topic ++ (msg ++ (name ++ some_string l.password))),
    )

eval_connect-IsLogin :
    (l : Login)
    → IsLogin l
    → eval_connect (some l.client_id) l.will_topic l.will_msg_len l.user_name l.password_len
      ≡ length (connect_bytes l)
unfolding eval_connect
eval_connect-IsLogin l v =
    let n0 = 10 + length (some_string (some l.client_id)) in
    let n1 = n0 + length (some_string l.will_topic) in
    let n2 = n1 + length (some_string l.will_msg) in
    let n3 = n2 + length (some_string l.user_name) in
    let client : add_string (some l.client_id) 10 ≡ n0 =
      add_string_lem (some l.client_id) 10 (omega (arith, v.client_fits)) (omega arith) in
    rw
      (
        client,
        add_string_lem l.will_topic n0 v.topic_fits (omega (arith, v.client_fits)),
        add_counted_lem l.will_msg l.will_msg_len n1 v.msg_counted v.msg_fits
            (omega (arith, v.client_fits, v.topic_fits)),
        add_string_lem l.user_name n2 v.name_fits
            (omega (arith, v.client_fits, v.topic_fits, v.msg_fits)),
        add_counted_lem l.password l.password_len n3 v.password_counted v.password_fits
            (omega (arith, v.client_fits, v.topic_fits, v.msg_fits, v.name_fits)),
      )
      (omega (arith, length-connect_bytes l))

-- A CONNECT body whose strings fit their length fields, whose will and password have the lengths that
-- stand beside them, above 0 where they are there, and whose quality of service is below 4, formatted
-- into a buffer with room for the size that `mqtt_eval_connect` gives: no access is outside it, that
-- size is what is written and returned, field by field in the protocol's order, and what is
-- behind it in the buffer stays.
pub format_connect-eval_connect :
    (l : Login) (front room : List ℕ) (at : ℕ)
    → IsLogin l
    → at ≡ length front
    → eval_connect (some l.client_id) l.will_topic l.will_msg_len l.user_name l.password_len
      ≤ length room
    → format_connect l at (front ++ room)
      ≡ some (
        eval_connect (some l.client_id) l.will_topic l.will_msg_len l.user_name l.password_len,
        filled front room (connect_bytes l),
      )
format_connect-eval_connect l front room at v e fits =
    let size = eval_connect-IsLogin l v in
    Writes-append (connect-Writes l v) front room at e (omega (arith, size))
    ∙ ap (λ n. some (n, filled front room (connect_bytes l))) (sym size)
