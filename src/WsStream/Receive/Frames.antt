-- ===== src/WsStream/Receive/Frames.antt =====
-- One masked frame, as a server takes it from its input.
use c_mx.Common.{ℕ, suc, ◌/◌, ◌%◌, ◌<◌, ◌^◌, true, false, Option, none, some, List, ◌++◌, length}
use c_mx.Common.{drop, length-append, ltb, ◌==◌, ◌>>=◌, Memory}
use c_mx.Common.{arith, ◌≡◌, refl, ap}
use c_mx.Websocket.{WsFrame}
use c_mx.Websocket.Header.{frame_bytes}
use c_mx.Websocket.RoundTrip.{described, parse_frame-frame_bytes}
use c_mx.Websocket.Unmask.{header_of, unmask_lem}
use c_mx.Stream.{Lower}
use c_mx.WsStream.{StreamWs, World}
use c_mx.WsStream.Receive.{frame_loop, take_frame, handle_received_frame, unmask, dispatch}
use c_mx.WsStream.Receive.{}

module _ {S : Type 0} (lower : Lower S) (w : World) where
  handled :
      (self : StreamWs S) (flags : ℕ) (key bytes rest : List ℕ)
      → self.client_role ≡ false
      → length key ≡ 4
      → handle_received_frame lower w self
          (described flags (some key) (length bytes))
          (frame_bytes flags (some key) bytes ++ rest)
        ≡ (dispatch lower w self (flags / 128) (flags % 16) bytes >>= λ self'.
            some (self', header_of flags key bytes ++ (bytes ++ rest)))
  unfolding handle_received_frame unmask
  handled self flags key bytes rest server four =
      let (unmasked, content, left) = unmask_lem flags key bytes rest four in
      let there : ltb 0 (described flags (some key) (length bytes)).payload_offset ≡ true =
        ground arith in
      rw (there, server, unmasked) (rw content refl)

  behind_dispatch :
      (o : Option (StreamWs S)) (memory rest : List ℕ) (size fuel : ℕ) (any : WsFrame)
      → drop size memory ≡ rest
      → ((o >>= λ self'. some (self', memory)) >>= λ (r : StreamWs S × Memory).
          frame_loop lower w fuel any (record (r.0) { buffer = drop size r.1 }))
        ≡ (o >>= λ self'. frame_loop lower w fuel any (record self' { buffer = rest }))
  behind_dispatch none memory rest size fuel any left = refl
  behind_dispatch (some self) memory rest size fuel any left =
      ap (λ t. frame_loop lower w fuel any (record self { buffer = t })) left

  pub one_frame :
      (self : StreamWs S) (flags fuel : ℕ) (key bytes rest : List ℕ) (any : WsFrame)
      → self.client_role ≡ false
      → flags < 256
      → length key ≡ 4
      → length (frame_bytes flags (some key) bytes) < 2 ^ 64
      → frame_loop lower w
          (suc fuel)
          any
          (record self { buffer = frame_bytes flags (some key) bytes ++ rest })
        ≡ (dispatch lower w
              (record self { buffer = frame_bytes flags (some key) bytes ++ rest })
              (flags / 128)
              (flags % 16)
              bytes
            >>= λ self'. frame_loop lower w fuel any (record self' { buffer = rest }))
  unfolding frame_loop take_frame
  one_frame self flags fuel key bytes rest any server byte four small =
      let frame = frame_bytes flags (some key) bytes in
      let memory = frame ++ rest in
      let parsed =
        parse_frame-frame_bytes any flags (length memory) rest bytes (some key) byte four small
          (omega (arith, length-append frame rest)) in
      let (unmasked, content, left) = unmask_lem flags key bytes rest four in
      let filled : (length memory == 0) ≡ false = ground arith in
      rw
        (filled, parsed, handled (record self { buffer = memory }) flags key bytes rest server four)
        (behind_dispatch
          (dispatch lower w (record self { buffer = memory }) (flags / 128) (flags % 16) bytes)
          (header_of flags key bytes ++ (bytes ++ rest)) rest (length frame) fuel any left)
