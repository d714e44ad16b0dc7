-- ===== src/Mqtt/Packets/Acks.antt =====
-- The acknowledgements of `Packets`, parsed after they were formatted: CONNACK, SUBACK, UNSUBACK
-- and the bodies that hold a packet identifier alone.
use c_mx.Common.{ℕ, ◌^◌, ◌≤◌, ◌<◌, Bool, true, false, some, List, [], ◌∷◌, ◌++◌}
use c_mx.Common.{length, if◌then◌else◌, arith, ◌≡◌, refl}
use c_mx.Mqtt.Put.Laws.{Writes, >>-Writes, put_byte-Writes, put_short-Writes, short_bytes}
use c_mx.Mqtt.Get.Laws.{Reads, >>=-Reads, pure-Reads, get_byte-Reads, get_short-Reads}
use c_mx.Mqtt.Packets.{read_var_header_id, parse_var_header_id, format_var_header_id}
use c_mx.Mqtt.Packets.{read_connack, parse_connack, format_connack}
use c_mx.Mqtt.Packets.{read_suback, parse_suback, format_suback}
use c_mx.Mqtt.Packets.{read_unsuback, parse_unsuback, format_unsuback}
use c_mx.Mqtt.Packets.Laws.{Parses, filled, finish-Writes}

-- The connect acknowledge flags: bit 0 says that there is a session.
abbrev flag_byte : Bool → ℕ
flag_byte session_present = if session_present then 1 else 0

connack-Writes :
    (session_present : Bool) (code : ℕ)
    → code < 2 ^ 8
    → Writes (format_connack session_present code) (flag_byte session_present ∷ code ∷ [])
unfolding format_connack
connack-Writes true code c = >>-Writes (put_byte-Writes 1 (omega arith)) (put_byte-Writes code c)
connack-Writes false code c = >>-Writes (put_byte-Writes 0 (omega arith)) (put_byte-Writes code c)

connack-Reads :
    (at : ℕ) (session_present : Bool) (code : ℕ)
    → Reads read_connack at
        (flag_byte session_present ∷ code ∷ [])
        (record { session_present = session_present; return_code = code })
unfolding read_connack
connack-Reads at true code =
    >>=-Reads _ (get_byte-Reads 1) (>>=-Reads _ (get_byte-Reads code) pure-Reads)
connack-Reads at false code =
    >>=-Reads _ (get_byte-Reads 0) (>>=-Reads _ (get_byte-Reads code) pure-Reads)

-- A CONNACK body whose return code fits a byte, formatted into a buffer with room for its two
-- bytes: no other byte changes, and the parser gets both fields back, and fails only if it is told
-- a length of more than 2.
pub parse_connack-format_connack :
    (session_present : Bool) (code : ℕ) (front room : List ℕ) (at : ℕ)
    → code < 2 ^ 8
    → at ≡ length front
    → 2 ≤ length room
    → (bytes : List ℕ) × (length bytes ≡ 2)
      × (format_connack session_present code at (front ++ room) ≡ some (2, filled front room bytes))
      × Parses parse_connack
          (filled front room bytes)
          at
          2
          (record { session_present = session_present; return_code = code })
unfolding parse_connack
parse_connack-format_connack session_present code front room at c e fits =
    let (formats, parses) =
      finish-Writes front room (connack-Writes session_present code c)
        (connack-Reads at session_present code) e (omega arith) fits in
    (flag_byte session_present ∷ code ∷ [], omega arith, formats, parses)

-- A SUBACK body whose identifier and return code fit their fields, formatted into a buffer with
-- room for its three bytes: no other byte changes, and the parser gets both fields back, and fails
-- only if it is told a length of more than 3.
pub parse_suback-format_suback :
    (id code : ℕ) (front room : List ℕ) (at : ℕ)
    → id < 2 ^ 16
    → code < 2 ^ 8
    → at ≡ length front
    → 3 ≤ length room
    → (bytes : List ℕ) × (length bytes ≡ 3)
      × (format_suback id code at (front ++ room) ≡ some (3, filled front room bytes))
      × Parses parse_suback (filled front room bytes) at 3 (record { id = id; return_code = code })
unfolding format_suback parse_suback read_suback
parse_suback-format_suback id code front room at i c e fits =
    let (formats, parses) =
      finish-Writes front room (>>-Writes (put_short-Writes id i) (put_byte-Writes code c))
        (>>=-Reads _ {at = at} (get_short-Reads id i)
          (>>=-Reads _ (get_byte-Reads code) pure-Reads))
        e (omega arith) fits in
    (short_bytes id ++ (code ∷ []), omega arith, formats, parses)

-- A body that is a packet identifier and nothing else, as UNSUBACK and the acknowledgements of a
-- PUBLISH have it, formatted into a buffer with room for its two bytes: no other byte changes, and
-- either parser gets the identifier back, and fails only if it is told a length of more than 2.
pub parse_id-format_id :
    (id : ℕ) (front room : List ℕ) (at : ℕ)
    → id < 2 ^ 16
    → at ≡ length front
    → 2 ≤ length room
    → (bytes : List ℕ) × (length bytes ≡ 2)
      × (format_var_header_id id at (front ++ room) ≡ some (2, filled front room bytes))
      × (format_unsuback id at (front ++ room) ≡ some (2, filled front room bytes))
      × Parses parse_var_header_id (filled front room bytes) at 2 (record { id = id })
      × Parses parse_unsuback (filled front room bytes) at 2 (record { id = id })
unfolding format_var_header_id parse_var_header_id read_var_header_id format_unsuback parse_unsuback
    read_unsuback
parse_id-format_id id front room at i e fits =
    let (formats, parses) =
      finish-Writes front room (put_short-Writes id i)
        (>>=-Reads _ {at = at} (get_short-Reads id i) pure-Reads) e refl fits in
    let (formats', parses') =
      finish-Writes front room (put_short-Writes id i)
        (>>=-Reads _ {at = at} (get_short-Reads id i) pure-Reads) e refl fits in
    (short_bytes id, refl, formats, formats', parses, parses')
