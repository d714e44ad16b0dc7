-- ===== src/Mqtt/Publish/RoundTrip.antt =====
-- PUBLISH bodies: what is written for a payload of any length, and what is parsed back.
use c_mx.Common.{ℕ, ◌+◌, ◌-◌, ◌%◌, ◌^◌, ◌≤◌, ◌<◌, Bool, true, false, some, List, [], ◌++◌}
use c_mx.Common.{length, length-append, take, drop, length-take, take_all, append-nil, append_assoc}
use c_mx.Common.{if◌then◌else◌, ltb, u16, u64, arith, subst, ◌≡◌, refl, sym, ap, ◌∙◌}
use c_mx.Mqtt.Put.{only_if, put_short}
use c_mx.Mqtt.Put.Laws.{Writes, >>-Writes, done-Writes, put_short-Writes, put_data-Writes}
use c_mx.Mqtt.Put.Laws.{put_string-Writes, Writes-append, short_bytes, string_bytes}
use c_mx.Mqtt.Get.{bytes_of, pure, get_short}
use c_mx.Mqtt.Get.Laws.{Reads, pure-Reads, get_short-Reads, get_data-Reads, get_string-Reads}
use c_mx.Mqtt.Packets.Laws.{filled, slice-filled}
use c_mx.Mqtt.Publish.{Publish, parse_publish, eval_publish, format_publish}

-- The identifier is there only with a quality of service above 0.
abbrev pub id_bytes : Bool → ℕ → List ℕ
id_bytes acknowledged id = if acknowledged then short_bytes id else []

id-Writes : (b : Bool) (id : ℕ) → id < 2 ^ 16 → Writes (only_if b (put_short id)) (id_bytes b id)
id-Writes true id h = put_short-Writes id h
id-Writes false id h = done-Writes

abbrev pub publish_bytes : ℕ → ℕ → List ℕ → List ℕ → List ℕ
publish_bytes qos id topic payload =
    string_bytes topic ++ (id_bytes (ltb 0 qos) id ++ take (u16 (length payload)) payload)

publish-Writes :
    (qos id : ℕ) (topic payload : List ℕ)
    → id < 2 ^ 16
    → length topic < 2 ^ 16
    → Writes
        (format_publish qos id topic payload (length payload))
        (publish_bytes qos id topic payload)
unfolding format_publish
publish-Writes qos id topic payload i t = >>-Writes (put_string-Writes topic t) (
    >>-Writes (id-Writes (ltb 0 qos) id i) (put_data-Writes payload (length payload) (omega arith)))

length-publish_bytes :
    (qos id : ℕ) (topic payload : List ℕ)
    → length topic < 2 ^ 16
    → length payload < 2 ^ 32
    → length (publish_bytes qos id topic payload) + length payload
      ≡ eval_publish qos topic (length payload) + length payload % 2 ^ 16
unfolding eval_publish
length-publish_bytes qos id topic payload t p = ground (
  arith,
  length-append topic (id_bytes (ltb 0 qos) id ++ take (u16 (length payload)) payload),
  length-append (id_bytes (ltb 0 qos) id) (take (u16 (length payload)) payload),
  length-take (u16 (length payload)) payload,
)

-- A PUBLISH body whose identifier and topic length fit their fields, with a payload of any length
-- below 2^32, formatted into a buffer with room for the size that `mqtt_eval_publish` gives:
-- the topic behind its length, the identifier if there is a quality of service above 0, and
-- of the payload only as many bytes as the low 16 bits of its length say. So the returned size
-- falls short of `mqtt_eval_publish` by the rest of the payload.
pub format_publish_cuts :
    (qos id : ℕ) (topic payload front room : List ℕ) (at : ℕ)
    → id < 2 ^ 16
    → length topic < 2 ^ 16
    → length payload < 2 ^ 32
    → at ≡ length front
    → eval_publish qos topic (length payload) ≤ length room
    → (size : ℕ) × (format_publish qos id topic payload (length payload) at (front ++ room)
        ≡ some (size, filled front room (publish_bytes qos id topic payload)))
      × (size + length payload ≡ eval_publish qos topic (length payload) + length payload % 2 ^ 16)
format_publish_cuts qos id topic payload front room at i t p e fits =
    let size = length-publish_bytes qos id topic payload t p in
    (
      length (publish_bytes qos id topic payload),
      Writes-append (publish-Writes qos id topic payload i t) front room at e (omega (arith, size)),
      size,
    )

-- The parser's fields, `rest` being the identifier that the structure held before.
abbrev published : ℕ → ℕ → ℕ → List ℕ → List ℕ → ℕ → Publish
published at qos id topic payload rest = record {
  id = if ltb 0 qos then id else rest;
  topic = record { start = at + 2; len = length topic };
  payload = record {
    start = at + (length (string_bytes topic) + length (id_bytes (ltb 0 qos) id));
    len = length payload;
  };
}

id-Reads :
    (b : Bool) (at id rest : ℕ)
    → id < 2 ^ 16
    → Reads (if b then get_short else pure rest) at (id_bytes b id) (if b then id else rest)
id-Reads true at id rest h = get_short-Reads id h
id-Reads false at id rest h = pure-Reads

-- The parser on memory that holds the three parts.
module _ (qos id : ℕ) (topic payload front back : List ℕ) (at len : ℕ) (before : Publish)
    (i : id < 2 ^ 16) (t : length topic < 2 ^ 16) (p : length payload < 2 ^ 16)
    (e : at ≡ length front)
    (l : len ≡ 2 + length topic + length (id_bytes (ltb 0 qos) id) + length payload) where
  abbrev ids : List ℕ
  ids = id_bytes (ltb 0 qos) id

  parse_publish_lem :
      parse_publish before (front ++ (string_bytes topic ++ (ids ++ (payload ++ back)))) at len qos
      ≡ some (published at qos id topic payload before.id, len)
  unfolding parse_publish
  parse_publish_lem =
      let rest = ids ++ (payload ++ back) in
      let topic_read = (get_string-Reads {at = at} topic t).run front rest e in
      let id_read = rw (append_assoc front (string_bytes topic) rest) at (
        (id-Reads (ltb 0 qos) (at + length (string_bytes topic)) id before.id i).run
          (front ++ string_bytes topic) (payload ++ back)
          (omega (arith, length-append front (string_bytes topic)))) in
      let payload_read =
        rw
          (
            append_assoc (front ++ string_bytes topic) ids (payload ++ back),
            append_assoc front (string_bytes topic) rest,
          )
          at
          ((get_data-Reads {at = at + (length (string_bytes topic) + length ids)} payload p).run
            ((front ++ string_bytes topic) ++ ids) back
            (omega (
              arith,
              length-append (front ++ string_bytes topic) ids,
              length-append front (string_bytes topic),
            ))) in
      let left : u16 (u64 (len + 2 ^ 64 - (length (string_bytes topic) + length ids)))
          ≡ length payload =
        omega arith in
      let whole : length (string_bytes topic) + length ids + length payload ≡ len = omega arith in
      rw (topic_read, id_read, left, payload_read, whole)

-- A PUBLISH body with all lengths and the identifier fit for their fields, formatted into a buffer
-- with room for it: `mqtt_eval_publish` bytes are written. The parser told that size and the
-- same quality of service gets the topic and the payload back, and the identifier if the
-- quality of service is above 0; else it leaves the identifier as it was. It returns the whole size.
pub parse_publish-format_publish :
    (qos id : ℕ) (topic payload front room : List ℕ) (at : ℕ) (before : Publish)
    → id < 2 ^ 16
    → length topic < 2 ^ 16
    → length payload < 2 ^ 16
    → at ≡ length front
    → eval_publish qos topic (length payload) ≤ length room
    → let size = eval_publish qos topic (length payload) in
      (memory : List ℕ) × (msg : Publish) × (format_publish qos id topic payload
          (length payload)
          at
          (front ++ room)
        ≡ some (size, memory))
      × (parse_publish before memory at size qos ≡ some (msg, size))
      × (msg.id ≡ (if ltb 0 qos then id else before.id))
      × (bytes_of memory msg.topic ≡ topic)
      × (bytes_of memory msg.payload ≡ payload)
parse_publish-format_publish qos id topic payload front room at before i t p e fits =
    let ids = id_bytes (ltb 0 qos) id in
    let bytes = string_bytes topic ++ (ids ++ payload) in
    let back = drop (length bytes) room in
    let size = eval_publish qos topic (length payload) in
    let msg = published at qos id topic payload before.id in
    let whole : publish_bytes qos id topic payload ≡ bytes =
      ap (λ t. string_bytes topic ++ (ids ++ t))
        (take_all payload (u16 (length payload)) (omega arith)) in
    let sized : length bytes ≡ size = omega (
      arith,
      ap (λ (l : List ℕ). length l) whole,
      length-publish_bytes qos id topic payload t (omega arith),
    ) in
    let written : Writes (format_publish qos id topic payload (length payload)) bytes =
      subst (Writes (format_publish qos id topic payload (length payload))) whole
        (publish-Writes qos id topic payload i t) in
    let parts : length bytes ≡ length (string_bytes topic) + (length ids + length payload) =
      omega (arith, length-append topic (ids ++ payload), length-append ids payload) in
    let shape : bytes ++ back ≡ string_bytes topic ++ (ids ++ (payload ++ back)) =
      append_assoc (string_bytes topic) (ids ++ payload) back
      ∙ ap (λ t. string_bytes topic ++ t) (append_assoc ids payload back) in
    (
      filled front room bytes,
      msg,
      Writes-append written front room at e (omega arith)
          ∙ ap (λ n. some (n, filled front room bytes)) sized,
      ap (λ m. parse_publish before m at size qos) (ap (λ l. front ++ l) shape)
          ∙ parse_publish_lem qos id topic payload front back at size before i t p e (omega arith),
      refl,
      slice-filled front room bytes (short_bytes (length topic)) topic (ids ++ payload) msg.topic
          refl (omega arith) refl,
      slice-filled front room bytes (string_bytes topic ++ ids) payload [] msg.payload
          (rw append-nil (sym (append_assoc (string_bytes topic) ids payload)))
          (omega (arith, length-append topic ids)) refl,
    )
