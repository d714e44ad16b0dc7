-- ===== src/Timer/Laws.antt =====
-- What clocks and timers of include/mx/timer.h and source/timer.c do over time.
use c_mx.Common.{
  ℕ, ◌+◌, ◌-◌, ◌/◌, ◌%◌, ◌^◌, ◌<◌, ◌≤◌, true, false, List, [], ◌∷◌, leb, ◌==◌, Bool-cases,
}
use c_mx.Common.{if◌then◌else◌, inl, inr, arith, ◌≡◌, refl, sym, ap, ◌∙◌}
use native.Mathlib.Nat.{mod-eq_of_lt}
use c_mx.Timer.{Clock, wrap, clock_update, tstamp, clock_for, start}
use c_mx.Timer.{time_now, before_end, remaining, expired, running}

-- The clock after a sequence of updates, each with its milliseconds and its chrono.
pub updates : ℕ → Clock → List (ℕ × ℕ) → Clock
updates bits clock [] = clock
updates bits clock ((ms, chrono) ∷ later) = updates bits (clock_update bits clock ms chrono) later

abbrev pub total : List (ℕ × ℕ) → ℕ
total [] = 0
total ((ms, chrono) ∷ later) = ms + total later

wrap_lem : (bits x : ℕ) → x < 2 ^ bits → wrap bits x ≡ x
unfolding wrap
wrap_lem bits x fits = mod-eq_of_lt fits

update_lem :
    (bits : ℕ) (clock : Clock) (ms chrono : ℕ)
    → clock.ms + ms < 2 ^ bits
    → clock.s ≡ clock.ms / 1000
    → ((clock_update bits clock ms chrono).ms ≡ clock.ms + ms)
      × ((clock_update bits clock ms chrono).s ≡ (clock.ms + ms) / 1000)
unfolding clock_update
update_lem bits clock ms chrono fits e = elim (Bool-cases (ms == 0)) [
  | inl zero ↦ rw zero (ground arith, ground arith)
  | inr pos ↦
      let m = wrap_lem bits (clock.ms + ms) fits in
      let part = wrap_lem bits (clock.ms % 1000 + ms) (omega arith) in
      let s = wrap_lem bits (clock.s + (clock.ms % 1000 + ms) / 1000) (omega arith) in
      rw (pos, part) (m, s ∙ omega arith)
]

-- From a clock of which the seconds are its milliseconds divided by 1000, any updates, as long as the counter of
-- milliseconds does not reach the bound of a `time_t`, add their milliseconds, and the seconds still are the milliseconds
-- divided by 1000: no part of a second is lost between two updates.
pub updates_lem :
    (bits : ℕ) (clock : Clock) (later : List (ℕ × ℕ))
    → clock.ms + total later < 2 ^ bits
    → clock.s ≡ clock.ms / 1000
    → ((updates bits clock later).ms ≡ clock.ms + total later)
      × ((updates bits clock later).s ≡ (clock.ms + total later) / 1000)
unfolding updates
updates_lem bits clock [] fits e = (omega arith, omega arith)
updates_lem bits clock ((ms, chrono) ∷ later) fits e =
    let (m, s) = update_lem bits clock ms chrono (omega arith) e in
    let (m', s') =
      updates_lem bits (clock_update bits clock ms chrono) later (omega (arith, m))
        (s ∙ ap (λ t. t / 1000) (sym m)) in
    (omega (arith, m, m'), s' ∙ ap (λ t. t / 1000) (omega (arith, m)))

-- A timer that was started, looked at later: its time left is what is missing to its
-- interval, and it has expired as soon as that is 0, unless the interval is 0, which is a timer that
-- is not running.
pub started_lem :
    (sys clock sys' clock' : Clock) (flags interval : ℕ)
    → tstamp (clock_for sys clock flags) flags ≤ tstamp (clock_for sys' clock' flags) flags
    → let elapsed =
        tstamp (clock_for sys' clock' flags) flags - tstamp (clock_for sys clock flags) flags in
      let timer = start sys clock flags interval in
      (remaining sys' clock' timer ≡ interval - elapsed)
      × (expired sys' clock' timer ≡ (if interval == 0 then false else leb interval elapsed))
      × (running timer ≡ (if interval == 0 then false else true))
unfolding start remaining expired running before_end time_now
started_lem sys clock sys' clock' flags interval h = (ground arith, ground arith, refl)
