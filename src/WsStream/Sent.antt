-- ===== src/WsStream/Sent.antt =====
-- What a WebSocket stream sends: the frames that it hands to the base class.
use c_mx.Common.{
  ℕ, ◌+◌, ◌≤◌, ◌<◌, ◌^◌, true, false, Option, none, some, List, [], ◌∷◌, ◌++◌, length,
}
use c_mx.Common.{
  take, drop, take-append, take-append-drop, length-take, append-nil, ltb, leb, ◌==◌, if◌then◌else◌,
  bit_or,
}
use c_mx.Common.{inl, inr, Bool-cases, arith, ◌≡◌, refl, sym, ap, ◌∙◌}
use c_mx.Websocket.{format_frame, flag_of}
use c_mx.Websocket.Header.{frame_bytes, length_bytes, mask_bytes, mask_size}
use c_mx.Websocket.RoundTrip.{format_frame_lem, length-frame_bytes}
use c_mx.Stream.{Lower, st_ready}
use c_mx.Stream.{got}
use c_mx.WsStream.{StreamWs, World, send, write_frame, do_write, generate_mask}
use c_mx.WsStream.Receive.Message.{
  Fragment, fragments, payload, Small, IsData, peek_frame-read_frame,
}
use c_mx.WsStream.Receive.{waiting, peek_frame, read_frame, message}
use c_mx.Websocket.{WsFrame}

length-length_bytes : (flag n : ℕ) → length (length_bytes flag n) ≤ 9
unfolding length_bytes
length-length_bytes flag n = elim (Bool-cases (ltb 65535 n)) [
  | inl large ↦ rw large (omega arith)
  | inr small ↦ elim (Bool-cases (leb 126 n)) [
    | inl middle ↦ rw (small, middle) (omega arith)
    | inr short ↦ rw (small, short) (omega arith)
  ]
]

mask_size_small : (mask : Option (List ℕ)) → mask_size mask ≤ 4
mask_size_small none = omega arith
mask_size_small (some mask) = omega arith

-- What the system promises: memory of the size asked for, and as many random bytes as asked for.
pub record Serves (w : World) : Type 0 where
  pub memory : (n : ℕ) → length (w.malloc n) ≡ n
  pub random : (i n : ℕ) → length (w.rand_data i n) ≡ n

module _ {S : Type 0} (lower : Lower S) (w : World) (serves : Serves w) where
  -- The memory allocated is enough for the frame, and exactly the frame is sent.
  pub write_frame_lem :
      (self : StreamWs S) (fin opcode flags : ℕ) (mask : Option (List ℕ)) (bytes : List ℕ)
      → bit_or (if fin == 0 then 0 else 128) opcode ≡ flags
      → length (mask_bytes mask) ≡ mask_size mask
      → length bytes + 14 < 2 ^ 64
      → write_frame lower w self fin opcode mask bytes
        ≡ some (send lower w self (frame_bytes flags mask bytes))
  unfolding write_frame
  write_frame_lem self fin opcode flags mask bytes e m small =
      let memory = w.malloc (length bytes + 14) in
      let frame = frame_bytes flags mask bytes in
      let k = length frame in
      let size : k
          ≡ 1
            + length (length_bytes (flag_of mask) (length bytes))
            + mask_size mask
            + length bytes =
        length-frame_bytes flags bytes mask m in
      let fits : k ≤ length bytes + 14 =
        omega
          (arith, size, length-length_bytes (flag_of mask) (length bytes), mask_size_small mask) in
      let formatted : format_frame memory flags mask bytes (length bytes)
          ≡ some (k, frame ++ drop k memory) =
        ap (λ t. format_frame t flags mask bytes (length bytes)) (sym (take-append-drop k memory))
        ∙ format_frame_lem flags (take k memory) (drop k memory) bytes mask
            (omega (arith, length-take k memory, serves.memory (length bytes + 14))) m
            (omega arith) in
      rw (e, formatted, take-append frame (drop k memory) k refl) refl

  -- A client that writes hands one frame to the base class: the final frame of its message, under the next
  -- random mask.
  do_write-fragments :
      (self : StreamWs S) (bytes : List ℕ)
      → self.client_role ≡ true
      → IsData self.data_type
      → length bytes + 14 < 2 ^ 64
      → do_write lower w self bytes
        ≡ some (
            send lower w (generate_mask lower w self) (
              fragments self.data_type
                (record { key = w.rand_data self.drawn 4; bytes = bytes } ∷ [])))
  unfolding do_write generate_mask fragments
  do_write-fragments self bytes client kind small =
      let flags : bit_or 128 self.data_type ≡ 128 + self.data_type = elim kind [
        | inl e ↦ rw e refl
        | inr e ↦ rw e refl
      ] in
      rw client (
        write_frame_lem _ 128 self.data_type (128 + self.data_type)
          (some (w.rand_data self.drawn 4)) bytes flags (serves.random self.drawn 4) small)

  -- A client writes, and a server that is ready and has received nothing before reads what the client hands to the base class: it
  -- gets the bytes written, whatever mask was drawn, as one finished message with the client's data type.
  pub do_write-read_frame :
      (client server : StreamWs S) (bytes : List ℕ) (any : WsFrame) (n : ℕ)
      → client.client_role ≡ true
      → IsData client.data_type
      → length bytes + 14 < 2 ^ 64
      → server.client_role ≡ false
      → server.base.status ≡ st_ready
      → server.buffer ≡ []
      → server.cache ≡ []
      → length bytes ≤ n
      → (sent : List ℕ) × (server' : StreamWs S) × (do_write lower w client bytes
          ≡ some (send lower w (generate_mask lower w client) sent))
        × (peek_frame lower w (got sent ∷ []) any server ≡ some (waiting (length bytes), server'))
        × ((read_frame server' n).0 ≡ message 1 client.data_type bytes)
  unfolding Small
  do_write-read_frame client server bytes any n is_client kind small is_server ready no_input
        no_cache room =
      let key = w.rand_data client.drawn 4 in
      let frags : List Fragment = record { key = key; bytes = bytes } ∷ [] in
      let four = serves.random client.drawn 4 in
      let size = length-frame_bytes client.data_type bytes (some key) four in
      let all : payload frags ≡ bytes = append-nil bytes in
      let (server', peeked, read) =
        peek_frame-read_frame lower w server client.data_type frags any n is_server ready no_input
          no_cache kind (omega arith)
          (four, omega (arith, size, length-length_bytes (flag_of (some key)) (length bytes)), tt)
          (omega (arith, ap length all)) in
      (
        fragments client.data_type frags,
        server',
        do_write-fragments client bytes is_client kind small,
        peeked ∙ ap (λ t. some (waiting (length t), server')) all,
        ap (λ r. r.0) read ∙ ap (message 1 client.data_type) all,
      )
