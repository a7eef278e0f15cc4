-- ===== src/Loop/Scheduler/Tests.antt =====
-- The scheduler's theorems at concrete moments, counted from Monday 0001-01-01.
use pyharmonics_gpt.Prelude.{
  ltb, none, Option, if◌then◌else◌, ℕ, ◌+◌, ◌*◌, ◌≤◌, ◌<◌, ◌≡◌, refl, true, false, some, List, [],
  ◌∷◌, ℤ, pos, negsuc, arith, inl, ◌&&◌, any,
}
use pyharmonics_gpt.Float.Fixed.{milli_float}
use pyharmonics_gpt.Loop.Scheduler.{
  default_config, us_hour, us_minute, us_day, in_quiet_hours, is_weekend, window_loop,
  last_improvement_age, read_all, read_stamped, keep_best, fitness_of, gen_eq, sort_gens,
  insert_gen, last_growth, growth_loop, next_active_window, plateau_loop, is_accepted, next_wake_at,
  WakeDecision, Line, blank, corrupt, parsed, plateau_count_from_history,
}
use pyharmonics_gpt.Loop.Scheduler.Wake.{late_friday_wakes_on_weekend, skip_weekends}
use pyharmonics_gpt.Loop.Scheduler.Raises.{accepts, is_none, is_some, plateau_count_raises}
use pyharmonics_gpt.Loop.Scheduler.NextWake.{next_wake_at_total}

-- Tuesday, 23:30
abbrev tuesday_night : ℕ
tuesday_night = us_day + 23 * us_hour + 30 * us_minute

-- Friday, 22:30
abbrev friday_night : ℕ
friday_night = 4 * us_day + 22 * us_hour + 30 * us_minute

wakes_at_seven : next_active_window tuesday_night default_config ≡ 2 * us_day + 7 * us_hour
unfolding next_active_window window_loop in_quiet_hours is_weekend
wakes_at_seven = refl

late_friday_wakes_on_weekend_example :
    let w = next_active_window friday_night skip_weekends in
    (w ≡ friday_night + 24 * us_hour) × (is_weekend w skip_weekends ≡ true)
late_friday_wakes_on_weekend_example =
    late_friday_wakes_on_weekend friday_night (inl (refl, omega arith))

abbrev fitness_values : List ℤ
fitness_values = pos 20 ∷ pos 15 ∷ pos 20 ∷ []

two_flat_generations : plateau_loop (pos 10) 0 fitness_values ≡ 2
unfolding plateau_loop
two_flat_generations = refl

-- a time stamp in thousandths of a second, up to the year 9999
abbrev timestamp : ℤ → Option ℕ
timestamp (pos n) = if ltb n 253_402_300_800_000 then some (n * 1000) else none
timestamp (negsuc n) = none

abbrev lines_with_generations : List (Line ℤ)
lines_with_generations =
    blank
    ∷ corrupt
    ∷ parsed (record {
      decision = some "accepted";
      gen = some 1;
      ts = some (pos 5);
      fitness = some (pos 7);
    })
    ∷ []

plateau_count_raises_example :
    is_none (plateau_count_from_history lines_with_generations)
    ≡ (any (accepts is_none) lines_with_generations && any (accepts is_some) lines_with_generations)
plateau_count_raises_example = plateau_count_raises lines_with_generations

next_wake_at_total_example :
    (w : WakeDecision) × (next_wake_at timestamp tuesday_night default_config lines_with_generations
        false
      ≡ some w)
    × (tuesday_night < w.wake_at)
    × (w.wake_at ≤ tuesday_night + 48 * us_hour)
unfolding is_accepted
next_wake_at_total_example =
    next_wake_at_total timestamp tuesday_night default_config lines_with_generations false refl refl
      (omega arith) (omega arith)

-- a time stamp in milliseconds, as a number of seconds
abbrev lines_in_milliseconds : List (Line ℤ)
lines_in_milliseconds =
    parsed (record {
      decision = some "accepted";
      gen = some 1;
      ts = some (pos 1_700_000_000_000_000);
      fitness = some (pos 7);
    })
    ∷ []

milliseconds_raise : last_improvement_age timestamp lines_in_milliseconds tuesday_night ≡ none
unfolding last_improvement_age read_all read_stamped keep_best is_accepted fitness_of gen_eq
    sort_gens insert_gen last_growth growth_loop
milliseconds_raise = refl

-- Tuesday, 14:20
abbrev tuesday_afternoon : ℕ
tuesday_afternoon = us_day + 14 * us_hour + 20 * us_minute
