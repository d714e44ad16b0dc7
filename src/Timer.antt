-- ===== src/Timer.antt =====
-- Clocks, timers, random back-off and repeated attempts: include/mx/timer.h, source/timer.c, the
-- `rand_time_` functions of source/rand.c, and source/repeater.c.
-- An `unsigned int` wraps at 2^32. The counters are kept within a `time_t`; what timers add to them is not bounded.
pub mod Laws
pub mod Repeater
pub mod Backoff
mod Tests
use c_mx.Common.{ℕ, ◌+◌, ◌-◌, ◌*◌, ◌/◌, ◌%◌, ◌^◌, Bool, true, false, List, [], ◌∷◌, ltb, leb, ◌==◌}
use c_mx.Common.{if◌then◌else◌, bit_and, u32, not}

-- The three counters of source/timer.c.
pub record Clock : Type 0 where
  pub ms : ℕ
  pub s : ℕ
  pub chrono : ℕ

-- Counting past the last value of a `time_t`, which has `bits` bits; with a sign bit too, C leaves open what happens.
pub wrap : ℕ → ℕ → ℕ
wrap bits x = x % 2 ^ bits

-- `clock_update`
pub clock_update : ℕ → Clock → ℕ → ℕ → Clock
clock_update bits clock ms chrono = if ms == 0 then record clock { chrono = chrono } else record {
  ms = wrap bits (clock.ms + ms);
  s = wrap bits (clock.s + wrap bits (clock.ms % 1000 + ms) / 1000);
  chrono = chrono;
}

-- `clock_update_sys`, from what `clock_gettime` and `time` report.
pub clock_update_sys : ℕ → ℕ → ℕ → ℕ → Clock
clock_update_sys bits tv_sec tv_nsec now = record {
  ms = wrap bits (wrap bits (tv_sec * 1000) + tv_nsec / 1000 / 1000);
  s = tv_sec;
  chrono = now;
}

unfoldable pub get_chrono : Clock → ℕ
get_chrono clock = if clock.chrono == 0 then clock.s else clock.chrono

-- `struct timer`
pub record Timer : Type 0 where
  pub start_time : ℕ
  pub interval : ℕ
  pub flags : ℕ

-- `timer_tstamp`, where `sys` is the clock as `clock_update_sys` would set it.
unfoldable pub clock_for : Clock → Clock → ℕ → Clock
clock_for sys clock flags = if bit_and flags 128 == 0 then clock else sys

unfoldable pub tstamp : Clock → ℕ → ℕ
tstamp clock flags =
    if bit_and flags 1 == 0
    then if bit_and flags 2 == 0 then clock.ms else get_chrono clock
    else clock.s

module _ (sys clock : Clock) where
  unfoldable pub start : ℕ → ℕ → Timer
  start flags interval = record {
    start_time = tstamp (clock_for sys clock flags) flags;
    interval = interval;
    flags = flags;
  }

  unfoldable pub restart : Timer → Timer
  restart self = record self { start_time = tstamp (clock_for sys clock self.flags) self.flags }

  -- The time on the timer's clock.
  unfoldable pub time_now : Timer → ℕ
  time_now self = tstamp (clock_for sys clock self.flags) self.flags

  -- `value < interval`, with `value` the signed difference of now and the start: the start is
  -- added on both sides.
  unfoldable pub before_end : Timer → Bool
  before_end self = ltb (time_now self) (self.start_time + self.interval)

  pub remaining : Timer → ℕ
  remaining self = if before_end self then self.start_time + self.interval - time_now self else 0

  unfoldable pub expired : Timer → Bool
  expired self = if self.interval == 0 then false else if before_end self then false else true

unfoldable pub stop : Timer → Timer
stop self = record { start_time = 0; interval = 0; flags = 0 }

unfoldable pub running : Timer → Bool
running self = if self.interval == 0 then false else true
