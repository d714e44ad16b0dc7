-- ===== src/WsStream/Alive.antt =====
-- How a WebSocket client notices that its peer is silent: `stream_ws_do_time` of source/stream_ws.c.
use c_mx.Common.{ℕ, ◌+◌, true, false, Option, none, some, List, [], ◌∷◌, ◌>>=◌, if◌then◌else◌}
use c_mx.Common.{inl, inr, Bool-cases, arith, ◌≡◌, refl, ap, ◌∙◌, append-nil}
use c_mx.Timer.{expired, restart, start}
use c_mx.Websocket.Header.{frame_bytes, length_bytes}
use c_mx.Websocket.Masking.{masked}
use c_mx.Websocket.{flag_of}
use c_mx.Stream.{Result, Lower, st_closing}
use c_mx.Stream.Writes.{do_write-status}
use c_mx.WsStream.{StreamWs, World, send, ping, write_frame, do_time, generate_mask, set_status}
use c_mx.WsStream.Receive.{dispatch}
use c_mx.WsStream.Sent.{Serves, write_frame_lem}

module _ {S : Type 0} (lower : Lower S) where
  send-status :
      (w : World) (self : StreamWs S) (bytes : List ℕ)
      → (send lower w self bytes).1.base.status ≡ self.base.status
  unfolding send
  send-status w self bytes = do_write-status lower (self.base, self.below) bytes

  send-client_role :
      (w : World) (self : StreamWs S) (bytes : List ℕ)
      → (send lower w self bytes).1.client_role ≡ self.client_role
  unfolding send
  send-client_role w self bytes = refl

  generate_mask_lem :
      (w : World) (self : StreamWs S)
      → self.client_role ≡ true
      → generate_mask lower w self
        ≡ record self { mask = some (w.rand_data self.drawn 4); drawn = self.drawn + 1 }
  unfolding generate_mask
  generate_mask_lem w self client =
      ap
        (λ b.
          if b
          then record self { mask = some (w.rand_data self.drawn 4); drawn = self.drawn + 1 }
          else record self { mask = none })
        client

  ping_bytes : (key : List ℕ) → frame_bytes 137 (some key) [] ≡ 137 ∷ 128 ∷ key
  unfolding length_bytes flag_of masked
  ping_bytes key = ap (λ k. 137 ∷ 128 ∷ k) (append-nil key)

  -- The PING frame went out under a new mask, which was drawn for it, and the timer was started anew.
  abbrev Pings : World → StreamWs S → StreamWs S → Type 0
  Pings w self self' =
      ((self'.base, self'.below)
        ≡ (c_mx.Stream.do_write lower (self.base, self.below)
            (137 ∷ 128 ∷ w.rand_data self.drawn 4)).1)
      × (self'.mask ≡ some (w.rand_data self.drawn 4))
      × (self'.drawn ≡ self.drawn + 1)
      × (self'.keep_alive_timer
          ≡ start w.sys w.clock self.keep_alive_timer.flags self.keep_alive_timer.interval)

  -- A client's ping goes out, and its answer is awaited from then on.
  ping_lem :
      (w : World) (self : StreamWs S)
      → Serves w
      → self.client_role ≡ true
      → (self' : StreamWs S) × (ping lower w self ≡ some self')
        × (self'.base.status ≡ self.base.status)
        × (self'.client_role ≡ true)
        × (self'.keep_alive_responded ≡ false)
        × Pings w self self'
  unfolding ping start restart send
  ping_lem w self serves client =
      let key = w.rand_data self.drawn 4 in
      let masked : StreamWs S = record self { mask = some key; drawn = self.drawn + 1 } in
      let frame = frame_bytes 137 (some key) [] in
      let after = (send lower w masked frame).1 in
      let finish : Result × StreamWs S → Option (StreamWs S) = λ r. some (record (r.1) {
        keep_alive_responded = false;
        keep_alive_timer = restart w.sys w.clock r.1.keep_alive_timer;
      }) in
      (
        record after {
          keep_alive_responded = false;
          keep_alive_timer = restart w.sys w.clock after.keep_alive_timer;
        },
        ap (λ (p : StreamWs S). write_frame lower w p 128 9 p.mask [] >>= finish)
              (generate_mask_lem w self client)
            ∙ ap (λ o. o >>= finish)
                (write_frame_lem lower w serves masked 128 9 137 (some key) [] refl
                  (serves.random self.drawn 4) (omega arith)),
        send-status w masked frame,
        send-client_role w masked frame ∙ client,
        refl,
        (
          ap (λ bytes. (c_mx.Stream.do_write lower (self.base, self.below) bytes).1)
              (ping_bytes key),
          refl,
          refl,
          refl,
        ),
      )

  -- What time does to a client whose timer has expired.
  do_time-ping :
      (w : World) (self : StreamWs S)
      → self.client_role ≡ true
      → self.keep_alive_responded ≡ true
      → expired w.sys w.clock self.keep_alive_timer ≡ true
      → do_time lower w self ≡ ping lower w self
  unfolding do_time
  do_time-ping w self client responded over = rw (over, client, responded) refl

  do_time-closing :
      (w : World) (self : StreamWs S)
      → self.client_role ≡ true
      → self.keep_alive_responded ≡ false
      → expired w.sys w.clock self.keep_alive_timer ≡ true
      → do_time lower w self ≡ some (set_status self st_closing)
  unfolding do_time
  do_time-closing w self client silent over = rw (over, client, silent) refl

  do_time-waiting :
      (w : World) (self : StreamWs S)
      → expired w.sys w.clock self.keep_alive_timer ≡ false
      → do_time lower w self ≡ some self
  unfolding do_time
  do_time-waiting w self running = rw running refl

  stays :
      (w : World) (self : StreamWs S)
      → Serves w
      → self.client_role ≡ true
      → self.keep_alive_responded ≡ true
      → (self' : StreamWs S) × (do_time lower w self ≡ some self')
        × (self'.base.status ≡ self.base.status)
  stays w self serves client responded =
      elim (Bool-cases (expired w.sys w.clock self.keep_alive_timer)) [
        | inl over ↦
            let (self', runs, same, client', silent, sent) = ping_lem w self serves client in
            (self', do_time-ping w self client responded over ∙ runs, same)
        | inr running ↦ (self, do_time-waiting w self running, refl)
      ]

  -- A client whose peer has answered, when its timer has expired: it hands a PING frame without a payload to the base class, under a
  -- mask newly drawn, starts its timer anew, and keeps its status. When the timer has expired once more and no PONG
  -- has come, the stream is closing; after a PONG the next call keeps the status, at any time. `rand_data` gives as many
  -- bytes as are wanted.
  pub do_time-dispatch :
      (w w' : World) (self : StreamWs S)
      → Serves w
      → Serves w'
      → self.client_role ≡ true
      → self.keep_alive_responded ≡ true
      → expired w.sys w.clock self.keep_alive_timer ≡ true
      → (self' : StreamWs S) × (do_time lower w self ≡ some self')
        × (self'.base.status ≡ self.base.status)
        × Pings w self self'
        × (expired w'.sys w'.clock self'.keep_alive_timer ≡ true
            → do_time lower w' self' ≡ some (set_status self' st_closing))
        × ((fin : ℕ) (bytes : List ℕ)
            → (answered later : StreamWs S) × (dispatch lower w' self' fin 10 bytes ≡ some answered)
              × (do_time lower w' answered ≡ some later)
              × (later.base.status ≡ self.base.status))
  unfolding dispatch
  do_time-dispatch w w' self serves serves' client responded over =
      let (self', runs, same, client', silent, sent) = ping_lem w self serves client in
      (
        self',
        do_time-ping w self client responded over ∙ runs,
        same,
        sent,
        λ over'. do_time-closing w' self' client' silent over',
        λ fin bytes.
            let answered : StreamWs S = record self' { keep_alive_responded = true } in
            let (later, runs', same') = stays w' answered serves' client' refl in
            (answered, later, refl, runs', same' ∙ same),
      )
