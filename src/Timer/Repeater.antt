-- ===== src/Timer/Repeater.antt =====
-- Repeated attempts with waiting times between them: source/repeater.c and include/mx/repeater.h.
use c_mx.Common.{ℕ, zero, suc, ◌+◌, ◌^◌, ◌<◌, ◌≤◌, Bool, true, false, ltb, leb, ◌==◌, not}
use c_mx.Common.{if◌then◌else◌, arith, ◌≡◌, refl, u32}
use c_mx.Timer.{Clock, Timer, tstamp, clock_for, start, stop, expired, running}
use c_mx.Timer.Backoff.{time_increase, capped, time_increase-Bounds}
use c_mx.Timer.Laws.{started_lem}

-- `struct repeater`
pub record Repeater : Type 0 where
  pub counter : ℕ
  pub limit : ℕ
  pub timeout : ℕ
  pub timer : Timer

pub init : Repeater → Repeater
init self = record { counter = 0; limit = 0; timeout = 1; timer = stop self.timer }

pub reset : Repeater → Repeater
reset self = record self { counter = 0; timer = stop self.timer }

pub set_limit : Repeater → ℕ → Repeater
set_limit self limit = record self { limit = limit }

pub set_timeout : Repeater → ℕ → Repeater
set_timeout self timeout = record self { timeout = timeout }

pub is_exhausted : Repeater → Bool
is_exhausted self = if ltb 0 self.limit then leb self.limit self.counter else false

-- `repeater_mark_attempt`: what it returns, and the repeater.
pub mark_attempt : Repeater → Bool × Repeater
mark_attempt self =
    let self' = record self { counter = u32 (self.counter + 1) } in (is_exhausted self', self')

module _ (sys clock : Clock) where
  pub is_waiting : Repeater → Bool
  is_waiting self = if running self.timer then not (expired sys clock self.timer) else false

  pub wait : Repeater → Repeater
  wait self = record self { timer = start sys clock 1 self.timeout }

  pub postpone : Repeater → ℕ → Repeater
  postpone self timeout = wait (record self { timeout = timeout })

  -- `random` is what `rand` returns; the result of `rand_time_increase` is not used.
  pub back_off : ℕ → Repeater → ℕ → Repeater
  back_off random self max_timeout =
      wait (record self { timeout = (time_increase random self.timeout max_timeout).1 })

-- `n` attempts, one after the other, and what the last of them returned.
pub attempts : ℕ → Repeater → Repeater
attempts zero self = self
attempts (suc n) self = (mark_attempt (attempts n self)).1

attempts_lem :
    (n : ℕ) (self : Repeater)
    → self.counter + n < 2 ^ 32
    → ((attempts n self).counter ≡ self.counter + n) × ((attempts n self).limit ≡ self.limit)
unfolding attempts mark_attempt
attempts_lem zero self h = (omega arith, refl)
attempts_lem (suc n) self h =
    let (c, l) = attempts_lem n self (omega arith) in (omega (arith, c), l)

-- After a reset and fewer than 2^32 - 1 attempts, the next attempt reports exhaustion exactly if a limit is
-- set and the attempts, with this one, have reached it.
pub mark_attempt-attempts :
    (n : ℕ) (self : Repeater)
    → n + 1 < 2 ^ 32
    → (mark_attempt (attempts n (reset self))).0
      ≡ (if self.limit == 0 then false else leb self.limit (n + 1))
unfolding mark_attempt is_exhausted reset
mark_attempt-attempts n self h =
    let fresh : (reset self).counter ≡ 0 = refl in
    let (c, l) = attempts_lem n (reset self) (omega (arith, fresh)) in
    let next : u32 ((attempts n (reset self)).counter + 1) ≡ n + 1 = omega (arith, c) in
    rw (next, l) (ground arith)

-- A repeater told to wait waits until its timeout in seconds has passed.
wait_lem :
    (sys clock sys' clock' : Clock) (self : Repeater)
    → clock.s ≤ clock'.s
    → is_waiting sys' clock' (wait sys clock self) ≡ ltb clock'.s (clock.s + self.timeout)
unfolding wait is_waiting tstamp clock_for
wait_lem sys clock sys' clock' self later =
    let (_, ends, runs) = started_lem sys clock sys' clock' 1 self.timeout later in
    rw (ends, runs) (ground arith)

-- Looked at later, a repeater told to wait waits for its timeout in seconds, and no longer; so does one that backs off from a timeout
-- below a limit below 2^31, and its new timeout is longer than before and within the limit.
pub back_off_lem :
    (sys clock sys' clock' : Clock) (random max_timeout : ℕ) (self : Repeater)
    → clock.s ≤ clock'.s
    → self.timeout < max_timeout
    → max_timeout < 2 ^ 31
    → let self' = back_off sys clock random self max_timeout in
      (is_waiting sys' clock' (wait sys clock self) ≡ ltb clock'.s (clock.s + self.timeout))
      × (is_waiting sys' clock' self' ≡ ltb clock'.s (clock.s + self'.timeout))
      × (self.timeout < self'.timeout)
      × (self'.timeout ≤ max_timeout)
unfolding back_off wait time_increase
back_off_lem sys clock sys' clock' random max_timeout self later below small =
    let grows = time_increase-Bounds random self.timeout max_timeout below small in
    let self' : Repeater = record self {
      timeout = (time_increase random self.timeout max_timeout).1;
    } in
    (
      wait_lem sys clock sys' clock' self later,
      wait_lem sys clock sys' clock' self' later,
      grows.1,
      grows.2,
    )

-- A repeater of which the timeout has reached the limit already keeps it when it backs off, however
-- far it is above the limit.
pub back_off_above :
    (sys clock : Clock) (random max_timeout : ℕ) (self : Repeater)
    → 0 < max_timeout
    → max_timeout ≤ self.timeout
    → (back_off sys clock random self max_timeout).timeout ≡ self.timeout
unfolding back_off wait time_increase
back_off_above sys clock random max_timeout self pos above =
    let kept : capped max_timeout self.timeout ≡ true = (unfold capped in ground arith) in rw kept
