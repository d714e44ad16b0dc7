-- ===== src/Timer/Backoff.antt =====
-- Random growth of a waiting time: `rand_time_increase` and `rand_time_decrease` of source/rand.c.
use c_mx.Common.{ℕ, ◌+◌, ◌*◌, ◌/◌, ◌%◌, ◌^◌, ◌<◌, ◌≤◌, Bool, false, ltb, leb, ◌==◌}
use c_mx.Common.{if◌then◌else◌, arith, ◌≡◌, u32}

-- `max && tmp >= max`
unfoldable pub capped : ℕ → ℕ → Bool
capped limit tmp = if limit == 0 then false else leb limit tmp

-- `tmp + (tmp+2)/2`, and above 4 a random part on it.
unfoldable pub grown : ℕ → ℕ → ℕ
grown random val =
    let tmp = u32 (val + u32 (val + 2) / 2) in
    if ltb 4 tmp then u32 (tmp + random % (val / 4 + 1)) else tmp

-- `rand_time_increase`, where `random` is what `rand` returns: the result, and the new `*val`.
unfoldable pub time_increase : ℕ → ℕ → ℕ → ℕ × ℕ
time_increase random val limit =
    if capped limit val
    then (limit, val)
    else let tmp = grown random val in
      let tmp' = (if capped limit tmp then limit else tmp) in (tmp', tmp')

-- `rand_time_decrease`, the new `*val`.
pub time_decrease : ℕ → ℕ
time_decrease val = if ltb 0 val then val / 2 else val

-- Whatever `rand` returns, for a time below a limit below 2^31: it grows, stays within the limit,
-- and at most doubles and one more; what is returned is what is stored.
pub time_increase-Bounds :
    (random val limit : ℕ)
    → val < limit
    → limit < 2 ^ 31
    → let (result, val') = time_increase random val limit in
      (result ≡ val') × (val < val') × (val' ≤ limit) × (val' ≤ 2 * val + 1)
unfolding time_increase grown capped
time_increase-Bounds random val limit below small = ground arith
