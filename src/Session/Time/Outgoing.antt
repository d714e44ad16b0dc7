-- ===== src/Session/Time/Outgoing.antt =====
-- Frames that wait for their acknowledgement: how often an MQTT stream sends them.
use c_mx.Common.{◌+◌, ◌<◌, Bool, true, some, List, [], ◌∷◌, ◌++◌, ◌>>=◌}
use c_mx.Common.{arith, ◌≡◌, refl, ◌∙◌, ltb, u32, ◌==◌, ap}
use c_mx.Timer.{start, stop, expired, running, tstamp, clock_for}
use c_mx.Session.{Item, Session, World, real_write}
use c_mx.Session.Time.{check_alive, check_resend, send_next, send_first, do_time, resend_first}

-- Has the timer that was started at `w` for a repetition run out at `w'`?
abbrev pub waited : World → World → Bool
waited w w' = expired w'.sys w'.clock (start w.sys w.clock 1 30)

-- A stream that was idle as its next frame went out: the frame is written, and its timer started.
abbrev pub next_sent : World → Session → List Item → Session
next_sent w self [] = self
next_sent w self (item ∷ rest) = record self {
  written = self.written ++ (item.body ∷ []);
  resend_timer = record { start_time = w.clock.s; interval = 30; flags = 1 };
}

send_first_lem :
    (w : World) (self : Session) (queue : List Item)
    → send_first w self queue ≡ next_sent w self queue
unfolding send_first start real_write tstamp clock_for
send_first_lem w self [] = refl
send_first_lem w self (item ∷ rest) = refl

-- Without a keep-alive time, only the frames in the outgoing queue matter.
do_time_lem :
    (w : World) (self : Session)
    → self.keep_alive_timer.interval ≡ 0
    → do_time w self ≡ some (send_next w (check_resend w self))
unfolding do_time check_alive expired
do_time_lem w self off =
    let never : (self.keep_alive_timer.interval == 0) ≡ true = ground arith in rw never

-- The timer runs again after a repetition.
repeat_lem :
    (w : World) (self : Session) (item : Item) (rest : List Item)
    → self.keep_alive_timer.interval ≡ 0
    → self.outgoing ≡ item ∷ rest
    → expired w.sys w.clock self.resend_timer ≡ true
    → self.resend_attempts + 1 < 3
    → do_time w self
      ≡ some (record (real_write self item.body) {
        resend_attempts = self.resend_attempts + 1;
        resend_timer = start w.sys w.clock 1 30;
      })
unfolding check_resend resend_first send_next running start real_write
repeat_lem w self item rest off queue late few =
    let more : ltb (u32 (self.resend_attempts + 1)) 3 ≡ true = ground arith in
    let count : u32 (self.resend_attempts + 1) ≡ self.resend_attempts + 1 = omega arith in
    do_time_lem w self off ∙ rw (late, queue, more, count)

-- The last time that it has run out.
drop_lem :
    (w : World) (self : Session) (item : Item) (rest : List Item)
    → self.keep_alive_timer.interval ≡ 0
    → self.outgoing ≡ item ∷ rest
    → expired w.sys w.clock self.resend_timer ≡ true
    → self.resend_attempts ≡ 2
    → do_time w self
      ≡ some (
          send_first w
            (record self {
              outgoing = rest;
              resend_attempts = 0;
              resend_timer = stop self.resend_timer;
            })
            rest)
unfolding check_resend resend_first send_next running stop
drop_lem w self item rest off queue late two = do_time_lem w self off ∙ rw (late, queue, two)

-- A frame that is first in the outgoing queue, with its timer running, no repetition so far, and no
-- keep-alive time; the timer runs out, and twice again when it was started anew: the
-- frame is sent again two times, then it is given up, and the next one, if there is one, is written
-- after these, with a timer of 30 seconds from then on and no repetition counted; else no timer runs.
pub three_times :
    (w1 w2 w3 : World) (self : Session) (item : Item) (rest : List Item)
    → self.keep_alive_timer.interval ≡ 0
    → self.outgoing ≡ item ∷ rest
    → self.resend_attempts ≡ 0
    → expired w1.sys w1.clock self.resend_timer ≡ true
    → waited w1 w2 ≡ true
    → waited w2 w3 ≡ true
    → (do_time w1 self >>= λ s1. do_time w2 s1 >>= λ s2. do_time w3 s2)
      ≡ some (
          next_sent w3
            (record self {
              outgoing = rest;
              resend_attempts = 0;
              resend_timer = record { start_time = 0; interval = 0; flags = 0 };
              written = (self.written ++ (item.body ∷ [])) ++ (item.body ∷ []);
            })
            rest)
unfolding real_write stop
three_times w1 w2 w3 self item rest off queue none_yet late late2 late3 =
    let s1 = record (real_write self item.body) {
      resend_attempts = self.resend_attempts + 1;
      resend_timer = start w1.sys w1.clock 1 30;
    } in
    let s2 = record (real_write s1 item.body) {
      resend_attempts = s1.resend_attempts + 1;
      resend_timer = start w2.sys w2.clock 1 30;
    } in
    rw
      (
        repeat_lem w1 self item rest off queue late (omega (arith, none_yet)),
        repeat_lem w2 s1 item rest off queue late2 (omega (arith, none_yet)),
        drop_lem w3 s2 item rest off queue late3 (omega (arith, none_yet)),
      )
      (ap some (send_first_lem w3 dropped rest))
  where
    dropped : Session
    dropped = record self {
      outgoing = rest;
      resend_attempts = 0;
      resend_timer = stop self.resend_timer;
      written = (self.written ++ (item.body ∷ [])) ++ (item.body ∷ []);
    }
