-- ===== src/Session/Frames.antt =====
-- The frames that an MQTT stream writes, as bytes: source/stream_mqtt.c on the packets of source/mqtt.c.
use c_mx.Common.{ℕ, ◌+◌, ◌*◌, ◌/◌, ◌%◌, ◌^◌, ◌≤◌, ◌<◌, some, List, [], ◌∷◌, ◌++◌, length, take}
use c_mx.Common.{take-append, length-append, if◌then◌else◌, ◌==◌, arith}
use c_mx.Common.{◌≡◌, refl, drop, load_bytes}
use c_mx.Mqtt.Put.{Writer}
use c_mx.Mqtt.Put.Laws.{Writes, Writes-append, put_short-Writes, short_bytes}
use c_mx.Mqtt.Length.Digits.{length-groups, groups_last}
use c_mx.Mqtt.Frame.RoundTrip.{header_bytes, format_frame-Writes}
use c_mx.Session.{
  Session, World, formatted, real_write, write_frame, write_frame_packet_id, qos_to_flags,
}

module _ (w : World) where
  -- What a writer puts into a new block that is large enough.
  pub formatted_lem :
      {format : Writer} {bytes : List ℕ}
      → Writes format bytes
      → (n : ℕ) → length bytes ≤ n
      → formatted w format n ≡ some bytes
  unfolding formatted load_bytes
  formatted_lem {format} {bytes} writes n fits =
      let block = w.allocator.malloc n in
      let size = w.allocator.length-malloc n in
      let back = drop (length bytes) block in
      let ran = Writes-append writes [] block 0 refl (omega (arith, size)) in
      let front : take (length bytes) (bytes ++ back) ≡ bytes =
        take-append bytes back (length bytes) refl in
      rw (ran, front) (let inside = length-append bytes back in ground (arith, inside))

  pub write_frame_lem :
      (self : Session) (kind flags : ℕ) (body : List ℕ)
      → kind < 16
      → flags < 16
      → length body < 2 ^ 28
      → write_frame w self kind flags body (length body)
        ≡ some (real_write self (header_bytes kind flags (length body) ++ body))
  unfolding write_frame
  write_frame_lem self kind flags body k f b =
      let size = length-groups 3 (length body) in
      rw (
        formatted_lem (format_frame-Writes kind flags body k f b) (length body + 5)
          (omega (arith, size, length-append (header_bytes kind flags (length body)) body)))

  -- A frame with a packet identifier: four bytes.
  pub write_id_lem :
      (self : Session) (kind id : ℕ)
      → kind < 16
      → id < 2 ^ 16
      → write_frame_packet_id w self kind id
        ≡ some (
            real_write self
              ((kind * 16 + (if kind == 6 then 2 else 0)) ∷ 2 ∷ id / 256 ∷ id % 256 ∷ []))
  unfolding write_frame_packet_id qos_to_flags
  write_id_lem self kind id k i =
      let flags : (if kind == 6 then qos_to_flags 1 else 0) ≡ (if kind == 6 then 2 else 0) = refl in
      let group = groups_last 3 2 (omega arith) in
      let small : (if kind == 6 then 2 else 0) < 16 = ground arith in
      rw (
        formatted_lem (put_short-Writes id i) 2 (omega arith),
        flags,
        write_frame_lem self kind (if kind == 6 then 2 else 0) (short_bytes id) k small
            (omega arith),
        group,
      )
