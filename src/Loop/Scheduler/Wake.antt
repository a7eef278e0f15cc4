-- ===== src/Loop/Scheduler/Wake.antt =====
-- Bounds on the wake-up time, and the weekend that 48 hours do not span.
use pyharmonics_gpt.Prelude.{
  ℕ, ◌+◌, ◌-◌, ◌*◌, ◌%◌, ◌≤◌, ◌<◌, ◌≡◌, Bool, true, false, arith, ◌⊎◌, Option, ℤ,
}
use pyharmonics_gpt.Loop.Scheduler.{
  SchedulerConfig, default_config, us_hour, hour, weekday, snap_to_hour, in_quiet_hours, is_weekend,
  is_active, next_active_window, decide_wake,
}
use pyharmonics_gpt.Loop.Scheduler.Window.{
  Landing, found, fallback, next_active_window-Landing, is_active_snap,
}

snap_lower : (t k : ℕ) → 1 ≤ k → t < snap_to_hour (t + k * us_hour)
snap_lower t k h = omega arith

Landing-bounds :
    (cfg : SchedulerConfig) (now : ℕ) {w : ℕ}
    → Landing cfg now now 48 w
    → (now < w) × (w ≤ now + 48 * us_hour)
Landing-bounds cfg now (found k h1 h2 e a before) = rw e (snap_lower now k h1, omega arith)
Landing-bounds cfg now (fallback e before) = rw e (omega arith)

-- The next window opens after `now`, and at most 48 hours after it.
pub next_active_window_bounds :
    (now : ℕ) (cfg : SchedulerConfig)
    → (now < next_active_window now cfg) × (next_active_window now cfg ≤ now + 48 * us_hour)
next_active_window_bounds now cfg = Landing-bounds cfg now (next_active_window-Landing cfg now)

-- Whatever the state, the loop wakes strictly later than now, and within two days or the
-- configured maximum, if that maximum is at least a minute.
pub decide_wake_bounds :
    (now : ℕ) (cfg : SchedulerConfig) (plateau : ℕ) (pending : Bool) (last_age : Option ℤ)
    → 1 ≤ cfg.max_interval_minutes
    → cfg.max_interval_minutes ≤ 2880
    → let w = (decide_wake now cfg plateau pending last_age).wake_at in
      (now < w) × (w ≤ now + 48 * us_hour)
unfolding decide_wake
decide_wake_bounds now cfg plateau pending last_age low high =
    ground (arith, next_active_window_bounds now cfg)

-- the distance from one hour of the day to the next occurrence of another
abbrev steps_to : ℕ → ℕ → ℕ
steps_to h a = (a + 23 - h) % 24 + 1

hour_after_steps :
    (now a : ℕ)
    → a < 24
    → (hour (now + steps_to (hour now) a * us_hour) ≡ a) × (steps_to (hour now) a ≤ 24)
hour_after_steps now a h = omega arith

-- Without weekend skipping, and with one hour of the day at least outside the quiet hours, the
-- returned time is active, and at most 24 hours away.
pub next_active_window-is_active :
    (now : ℕ) (cfg : SchedulerConfig) (t : ℕ)
    → cfg.weekend_skip ≡ false
    → in_quiet_hours t cfg ≡ false
    → let w = next_active_window now cfg in (is_active w cfg ≡ true) × (w ≤ now + 24 * us_hour)
next_active_window-is_active now cfg t weekday_only awake = go (next_active_window-Landing cfg now)
  where
    k : ℕ
    k = steps_to (hour now) (hour t)

    there : is_active (now + k * us_hour) cfg ≡ true
    there =
        let e = (hour_after_steps now (hour t) (omega arith)).0 in
        unfold in_quiet_hours is_weekend in ground (arith, e, awake)

    bound : k ≤ 24
    bound = (hour_after_steps now (hour t) (omega arith)).1

    soon : (j : ℕ) → ((i : ℕ) → 1 ≤ i → i < j → is_active (now + i * us_hour) cfg ≡ false) → j ≤ k
    soon j before = ground (arith, before k, there)

    go : {w : ℕ} → Landing cfg now now 48 w → (is_active w cfg ≡ true) × (w ≤ now + 24 * us_hour)
    go (found j h1 h2 e a before) = (a, rw e (omega (arith, soon j before, bound)))
    go (fallback e before) = absurd (ground (arith, before k, there, bound))

-- Friday from 22:00 on, and Saturday before 07:00
abbrev pub IsLateFriday : ℕ → Type 0
IsLateFriday t = ((weekday t ≡ 4) × (22 ≤ hour t)) ⊎ ((weekday t ≡ 5) × (hour t < 7))

abbrev pub skip_weekends : SchedulerConfig
skip_weekends = record default_config { weekend_skip = true }

late_friday_sleeps :
    (now k : ℕ)
    → IsLateFriday now
    → 1 ≤ k
    → k ≤ 48
    → is_active (now + k * us_hour) skip_weekends ≡ false
unfolding in_quiet_hours is_weekend
late_friday_sleeps now k late h1 h2 = ground (arith, late)

-- With weekends skipped and the default quiet hours, the 48 hours searched from a late Friday or an
-- early Saturday hold no active hour: the returned time is the same hour of the next day, which is
-- a Saturday or a Sunday.
pub late_friday_wakes_on_weekend :
    (now : ℕ)
    → IsLateFriday now
    → let w = next_active_window now skip_weekends in
      (w ≡ now + 24 * us_hour) × (is_weekend w skip_weekends ≡ true)
late_friday_wakes_on_weekend now late = go (next_active_window-Landing skip_weekends now)
  where
    go :
        {w : ℕ}
        → Landing skip_weekends now now 48 w
        → (w ≡ now + 24 * us_hour) × (is_weekend w skip_weekends ≡ true)
    go (found k h1 h2 e a before) = absurd (
        ground (
          arith,
          e,
          a,
          late_friday_sleeps now k late h1 h2,
          is_active_snap (now + k * us_hour) skip_weekends,
        ))
    go (fallback e before) = (e, rw e (unfold is_weekend in ground (arith, late)))
