-- ===== src/Timer/Tests.antt =====
-- The theorems on clocks, timers and repeaters at concrete values.
use c_mx.Common.{◌+◌, ◌<◌, ◌≤◌, true, [], ◌∷◌, ltb, arith, ◌≡◌, refl}
use c_mx.Timer.{Clock, start, remaining, expired, running, tstamp, clock_for}
use c_mx.Timer.Laws.{updates, updates_lem, started_lem}
use c_mx.Timer.Repeater.{Repeater, back_off, wait, is_waiting}
use c_mx.Timer.Repeater.{back_off_lem}

abbrev early : Clock
early = record { ms = 1500; s = 1; chrono = 0 }

abbrev late : Clock
late = record { ms = 9500; s = 9; chrono = 0 }

abbrev backing_off : Repeater
backing_off = record {
  counter = 1;
  limit = 3;
  timeout = 8;
  timer = record { start_time = 0; interval = 0; flags = 0 };
}

updates_lem_example :
    ((updates 63 early ((600, 0) ∷ (900, 7) ∷ [])).ms ≡ 3000)
    × ((updates 63 early ((600, 0) ∷ (900, 7) ∷ [])).s ≡ 3)
updates_lem_example = updates_lem 63 early ((600, 0) ∷ (900, 7) ∷ []) (omega arith) refl

started_lem_example :
    (remaining late late (start early early 1 5) ≡ 0)
    × (expired late late (start early early 1 5) ≡ true)
    × (running (start early early 1 5) ≡ true)
unfolding tstamp clock_for
started_lem_example = started_lem early early late late 1 5 (omega arith)

back_off_lem_example :
    (is_waiting late late (wait early early backing_off) ≡ ltb 9 (1 + 8))
    × (is_waiting late late (back_off early early 1 backing_off 60)
        ≡ ltb 9 (1 + (back_off early early 1 backing_off 60).timeout))
    × (8 < (back_off early early 1 backing_off 60).timeout)
    × ((back_off early early 1 backing_off 60).timeout ≤ 60)
back_off_lem_example =
    back_off_lem early early late late 1 60 backing_off (omega arith) (omega arith) (omega arith)
