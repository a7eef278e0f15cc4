-- ===== src/Loop/Scheduler.antt =====
-- app/loop/scheduler.py: when the loop wakes next. A naive `datetime` is the number of microseconds
-- since 0001-01-01 00:00, a Monday; hour, weekday and the snap to the hour are read off that number.
mod Calendar
mod History
pub mod Window
pub mod Wake
pub mod Plateau
pub mod Raises
pub mod Stamps
pub mod NextWake
mod Tests
pub use Calendar.*
unfoldable pub use History.*
use pyharmonics_gpt.Prelude.{
  ℕ, zero, suc, ◌+◌, ◌*◌, ◌%◌, ◌≡◌, Bool, true, false, not, ◌&&◌, ◌||◌, Option, none, some, List,
  ltb, leb, ℤ, pos, sub_ℕ, ltb_ℤ, if◌then◌else◌,
}
use pyharmonics_gpt.Float.{Float}

pub record SchedulerConfig : Type 0 where
  pub max_interval_minutes : ℕ
  pub plateau_backoff_gens : ℕ
  pub quiet_hours_start : ℕ
  pub quiet_hours_end : ℕ
  pub weekend_skip : Bool

abbrev pub default_config : SchedulerConfig
default_config = record {
  max_interval_minutes = 60;
  plateau_backoff_gens = 5;
  quiet_hours_start = 23;
  quiet_hours_end = 7;
  weekend_skip = false;
}

pub in_quiet_hours : ℕ → SchedulerConfig → Bool
in_quiet_hours now cfg =
    let h = hour now in
    if ltb cfg.quiet_hours_start cfg.quiet_hours_end
    then leb cfg.quiet_hours_start h && ltb h cfg.quiet_hours_end
    else leb cfg.quiet_hours_start h || ltb h cfg.quiet_hours_end

pub is_weekend : ℕ → SchedulerConfig → Bool
is_weekend now cfg = if not cfg.weekend_skip then false else leb 5 (weekday now)

-- the test that `_next_active_window` makes of a candidate
abbrev pub is_active : ℕ → SchedulerConfig → Bool
is_active t cfg = not (in_quiet_hours t cfg) && not (is_weekend t cfg)

-- The loop of `_next_active_window`, with the rounds that are left.
pub window_loop : ℕ → ℕ → ℕ → SchedulerConfig → ℕ
window_loop zero candidate now cfg = now + 24 * us_hour
window_loop (suc rounds) candidate now cfg =
    let rest = window_loop rounds (candidate + us_hour) now cfg in
    if is_active (candidate + us_hour) cfg then snap_to_hour (candidate + us_hour) else rest

pub next_active_window : ℕ → SchedulerConfig → ℕ
next_active_window now cfg = window_loop 48 now now cfg

pub data Reason : Type 0 where
  quiet_hours_or_weekend operator_action plateau_reached : Reason
  improved_within_day improved_within_week no_recent_improvement : Reason

pub record WakeDecision : Type 0 where
  pub wake_at : ℕ
  pub reason : Reason
  pub plateau_count : ℕ
  -- the age in microseconds; the source divides it by an hour
  pub last_improvement_age : Option ℤ

-- `last_age is not None and last_age < limit`
pub is_younger : Option ℤ → ℕ → Bool
is_younger none limit = false
is_younger (some age) limit = ltb_ℤ age (pos limit)

pub decide_wake : ℕ → SchedulerConfig → ℕ → Bool → Option ℤ → WakeDecision
unfolding is_younger
decide_wake now cfg plateau pending last_age =
    if in_quiet_hours now cfg || is_weekend now cfg
    then record {
      wake_at = next_active_window now cfg;
      reason = quiet_hours_or_weekend;
      plateau_count = plateau;
      last_improvement_age = none;
    }
    else if pending
    then record {
      wake_at = now + 5 * us_minute;
      reason = operator_action;
      plateau_count = plateau;
      last_improvement_age = none;
    }
    else if leb cfg.plateau_backoff_gens plateau
    then record {
      wake_at = next_active_window now cfg;
      reason = plateau_reached;
      plateau_count = plateau;
      last_improvement_age = none;
    }
    else if is_younger last_age (24 * us_hour)
    then record {
      wake_at = now + 15 * us_minute;
      reason = improved_within_day;
      plateau_count = plateau;
      last_improvement_age = last_age;
    }
    else if is_younger last_age (24 * 7 * us_hour)
    then record {
      wake_at = now + 30 * us_minute;
      reason = improved_within_week;
      plateau_count = plateau;
      last_improvement_age = last_age;
    }
    else record {
      wake_at = now + cfg.max_interval_minutes * us_minute;
      reason = no_recent_improvement;
      plateau_count = plateau;
      last_improvement_age = last_age;
    }

-- none of the cases that go before the age of the last improvement
unfoldable pub reads_age : ℕ → SchedulerConfig → ℕ → Bool → Bool
unfolding in_quiet_hours is_weekend
reads_age now cfg plateau pending =
    not (in_quiet_hours now cfg || is_weekend now cfg)
    && not pending
    && not (leb cfg.plateau_backoff_gens plateau)

-- `next_wake_at` reads the history twice; `none` is an exception: the TypeError of `sorted` on mixed
-- keys, or that of `datetime.fromtimestamp`, which depends on the machine's time zone.
module _ {F : Type 0} ⦃d : Float F⦄ (from_timestamp : F → Option ℕ) where
  pub next_wake_at : ℕ → SchedulerConfig → List (Line F) → Bool → Option WakeDecision
  unfolding decide_wake reads_age
  next_wake_at now cfg history pending = elim (plateau_count_from_history history) [
    | none ↦ none
    | some plateau ↦
        elim (if reads_age now cfg plateau pending
          then last_improvement_age from_timestamp history now
          else some none) [
            | none ↦ none
            | some age ↦ some (decide_wake now cfg plateau pending age)
          ]
  ]
