-- ===== src/Session/Time.antt =====
-- What an MQTT stream does as time passes: `stream_mqtt_do_time` of source/stream_mqtt.c.
pub mod Outgoing
use c_mx.Common.{
  ℕ, ◌+◌, ◌*◌, Bool, true, false, Option, none, some, List, [], ◌∷◌, ◌++◌, ltb, if◌then◌else◌,
  ◌>>=◌, u32,
}
use c_mx.Timer.{Timer, start, stop, restart, expired, running}
use c_mx.Session.{Item, Session, Status, st_closing, World, real_write, write_frame}

module _ (w : World) where
  -- A client pings, or gives up where the last ping has no answer; a server gives up.
  pub check_alive : Session → Option Session
  check_alive self =
      if expired w.sys w.clock self.keep_alive_timer
      then if self.client_role
        then if self.keep_alive_responded
          then (write_frame w self 12 0 [] 0 >>= λ self'. some (record self' {
            keep_alive_responded = false;
            keep_alive_timer = restart w.sys w.clock self'.keep_alive_timer;
          }))
          else some (record self { status = st_closing })
        else some (record self { status = st_closing })
      else some self

  -- The first frame waiting for its acknowledgement is sent again, or given up.
  pub resend_first : Session → List Item → Session
  resend_first self [] = self
  resend_first self (item ∷ rest) =
      let attempts = u32 (self.resend_attempts + 1) in
      if ltb attempts 3
      then record (real_write self item.body) {
        resend_attempts = attempts;
        resend_timer = start w.sys w.clock 1 30;
      }
      else record self {
        outgoing = rest;
        resend_attempts = 0;
        resend_timer = stop self.resend_timer;
      }

  pub check_resend : Session → Session
  check_resend self =
      if expired w.sys w.clock self.resend_timer then resend_first self self.outgoing else self

  -- Where no frame is waiting, the next one is sent.
  pub send_first : Session → List Item → Session
  send_first self [] = self
  send_first self (item ∷ rest) = record (real_write self item.body) {
    resend_timer = start w.sys w.clock 1 30;
  }

  pub send_next : Session → Session
  send_next self = if running self.resend_timer then self else send_first self self.outgoing

  -- `stream_mqtt_do_time`, without the call for the stream below.
  pub do_time : Session → Option Session
  do_time self = do self' ← check_alive self; some (send_next (check_resend self'))
