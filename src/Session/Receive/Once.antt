-- ===== src/Session/Receive/Once.antt =====
-- A publication of quality 2 goes to the application once, however often it and its release are sent.
use c_mx.Common.{ℕ, ◌/◌, ◌%◌, ◌^◌, ◌<◌, true, false, some, List, [], ◌∷◌, ◌++◌}
use c_mx.Common.{◌==◌, ◌>>=◌, arith, ◌≡◌, refl, ap, ◌∙◌, append-nil, Memory, load_bytes}
use c_mx.Mqtt.Frame.{FixedHeader}
use c_mx.Mqtt.Packets.{ParseResult, parse_var_header_id}
use c_mx.Mqtt.Publish.{Publish, parse_publish}
use c_mx.Session.{Item, Session, World, remove_frame, append_frame, real_write, qos_from_flags}
use c_mx.Session.Frames.{write_id_lem}
use c_mx.Session.Receive.{hold, on_publish, on_pubrel}
use c_mx.Session.Receive.Inbound.{
  others, matching, hold-hold, release_lem, matching-append, others-append,
}
use c_mx.Session.Receive.Inbound.{absent_lem}

-- The frame of four bytes with first byte `b` and an identifier.
abbrev pub id_frame : ℕ → ℕ → List ℕ
id_frame b id = b ∷ 2 ∷ id / 256 ∷ id % 256 ∷ []

-- A PUBLISH frame of quality 2, where its fields and its body can be read.
pub record IsHeldPublish (w : World) (frame : FixedHeader) (memory : Memory) (at : ℕ)
    (msg : Publish) (body : List ℕ) : Type 0 where
  pub publication : frame.kind ≡ 3
  pub quality : qos_from_flags frame.flags ≡ 2
  pub consumed : ℕ
  pub fields : parse_publish w.any_publish memory at frame.body_length 2 ≡ some (msg, consumed)
  pub bytes : load_bytes memory at frame.body_length ≡ some body
  pub id_fits : msg.id < 2 ^ 16

module _ (w : World) (frame : FixedHeader) (memory : Memory) (at : ℕ) (msg : Publish)
    (body : List ℕ) (p : IsHeldPublish w frame memory at msg body) where
  abbrev pub held : Item
  held = record { kind = frame.kind; flags = frame.flags; id = msg.id; body = body }

  publish_step :
      (self : Session)
      → on_publish w self frame memory at
        ≡ some (real_write (hold w self frame msg.id body) (id_frame 80 msg.id))
  unfolding on_publish
  publish_step self = rw (
    p.quality,
    p.fields,
    p.bytes,
    write_id_lem w (hold w self frame msg.id body) 5 msg.id (omega arith) p.id_fits,
  )

  -- Received a second time.
  again_step :
      (self : Session)
      → on_publish w
          (real_write (hold w self frame msg.id body) (id_frame 80 msg.id))
          frame
          memory
          at
        ≡ some (
            real_write
              (real_write (hold w self frame msg.id body) (id_frame 80 msg.id))
              (id_frame 80 msg.id))
  unfolding hold real_write
  again_step self =
      publish_step (real_write (hold w self frame msg.id body) (id_frame 80 msg.id))
      ∙ ap
          (λ (s : Session).
            some (record (real_write (real_write self (id_frame 80 msg.id)) (id_frame 80 msg.id)) {
              inbound = s.inbound;
            }))
          (hold-hold w self frame frame msg.id body body refl)

  -- The inbound queue with the frame held.
  abbrev holding : List Item → List Item
  holding queue =
      append_frame (remove_frame queue frame.kind msg.id).1 frame.kind frame.flags msg.id body

  held_lem :
      (queue : List Item)
      → matching msg.id queue ≡ []
      → (matching msg.id (holding queue) ≡ held ∷ []) × (others msg.id (holding queue) ≡ queue)
  unfolding matching others append_frame
  held_lem queue absent =
      let (removed, left) = absent_lem frame.kind msg.id queue absent in
      let same : (msg.id == msg.id) ≡ true = ground arith in
      (
        rw (removed, matching-append msg.id queue (held ∷ []), absent, same),
        rw (removed, others-append msg.id queue (held ∷ []), left, same) (append-nil queue),
      )

  module _ (released : FixedHeader) (memory' : Memory) (at' : ℕ) (answer : ParseResult)
      (r : parse_var_header_id memory' at' released.body_length
        ≡ some (record { id = msg.id }, answer)) where
    release_step :
        (self : Session)
        → self.observed ≡ false
        → on_pubrel w self released memory' at'
          ≡ some (record (real_write self (id_frame 112 msg.id)) {
            inbound = others msg.id self.inbound;
            incoming = self.incoming ++ matching msg.id self.inbound;
          })
    unfolding on_pubrel real_write
    release_step self quiet =
        rw (r, write_id_lem w self 7 msg.id (omega arith) p.id_fits)
          (release_lem w msg.id [] self.inbound (real_write self (id_frame 112 msg.id)) quiet refl)

    -- A stream without an observer, with no frame of the identifier in its inbound queue, receives a
    -- PUBLISH of quality 2, the same once more, and then twice a PUBREL of its identifier, where the
    -- fields and the body of the one and the identifier of the other can be read. It
    -- answers with two PUBREC and two PUBCOMP, the application finds the frame once, behind those
    -- that waited for it already, and nothing else changes.
    pub delivered_once :
        (self : Session)
        → self.observed ≡ false
        → matching msg.id self.inbound ≡ []
        → (on_publish w self frame memory at >>= λ s1. on_publish w s1 frame memory at >>= λ s2.
            on_pubrel w s2 released memory' at' >>= λ s3. on_pubrel w s3 released memory' at')
          ≡ some (record self {
            incoming = self.incoming ++ (held ∷ []);
            written =
                (((self.written ++ (id_frame 80 msg.id ∷ [])) ++ (id_frame 80 msg.id ∷ []))
                  ++ (id_frame 112 msg.id ∷ []))
                ++ (id_frame 112 msg.id ∷ []);
          })
    unfolding real_write hold
    delivered_once self quiet absent =
        let s1 = real_write (hold w self frame msg.id body) (id_frame 80 msg.id) in
        let s2 = real_write s1 (id_frame 80 msg.id) in
        let (found, left) = held_lem self.inbound absent in
        let none_left = (absent_lem frame.kind msg.id self.inbound absent).1 in
        rw (
          publish_step self,
          again_step self,
          release_step s2 quiet,
          release_step
              (record (real_write s2 (id_frame 112 msg.id)) {
                inbound = others msg.id s2.inbound;
                incoming = s2.incoming ++ matching msg.id s2.inbound;
              })
              quiet,
          found,
          left,
          none_left,
          absent,
          append-nil (self.incoming ++ (held ∷ [])),
        )
