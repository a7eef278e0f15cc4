-- ===== src/Loop/Scheduler/Calendar.antt =====
-- The fields of a naive `datetime` that the scheduler reads.
use pyharmonics_gpt.Prelude.{ℕ, ◌-◌, ◌/◌, ◌%◌}

abbrev pub us_minute : ℕ
us_minute = 60_000_000

abbrev pub us_hour : ℕ
us_hour = 3_600_000_000

abbrev pub us_day : ℕ
us_day = 86_400_000_000

abbrev pub hour : ℕ → ℕ
hour t = t / us_hour % 24

-- Monday is 0.
abbrev pub weekday : ℕ → ℕ
weekday t = t / us_day % 7

-- `t.replace(minute=0, second=0, microsecond=0)`
abbrev pub snap_to_hour : ℕ → ℕ
snap_to_hour t = t - t % us_hour
