-- ===== src/Loop/Scheduler/NextWake.antt =====
-- `next_wake_at` as a whole, and its back-off on a plateau.
use pyharmonics_gpt.Prelude.{
  ℕ, ◌+◌, ◌*◌, ◌≤◌, ◌<◌, ◌≡◌, refl, Bool, true, false, arith, Option, Option-cases, inl, inr, none,
  some, List, any, all, ℤ, if◌then◌else◌,
}
use pyharmonics_gpt.Float.{Float}
use pyharmonics_gpt.Loop.Scheduler.{
  SchedulerConfig, WakeDecision, us_hour, Line, plateau_count_from_history, last_improvement_age,
  reads_age, decide_wake, next_wake_at,
}
use pyharmonics_gpt.Loop.Scheduler.Wake.{decide_wake_bounds}
use pyharmonics_gpt.Loop.Scheduler.Raises.{accepts, is_none, plateau_count_raises}
use pyharmonics_gpt.Loop.Scheduler.Stamps.{is_stamped, last_improvement_age_returns}

age_if :
    {F : Type 0} ⦃d : Float F⦄ (from_timestamp : F → Option ℕ) (b : Bool) (history : List (Line F))
    (now : ℕ)
    → all (is_stamped from_timestamp) history ≡ true
    → (age : Option ℤ) × ((if b then last_improvement_age from_timestamp history now else some none)
        ≡ some age)
age_if from_timestamp true history now h = last_improvement_age_returns from_timestamp history now h
age_if from_timestamp false history now h = (none, refl)

-- With a history in which every accepted record has its generation and no time stamp that
-- `datetime.fromtimestamp` refuses, and a maximal interval from one minute to two days, the scheduler
-- returns a decision to wake later than now, within two days.
pub next_wake_at_total :
    {F : Type 0} ⦃d : Float F⦄ (from_timestamp : F → Option ℕ) (now : ℕ) (cfg : SchedulerConfig)
    (history : List (Line F)) (pending : Bool)
    → any (accepts is_none) history ≡ false
    → all (is_stamped from_timestamp) history ≡ true
    → 1 ≤ cfg.max_interval_minutes
    → cfg.max_interval_minutes ≤ 2880
    → (w : WakeDecision) × (next_wake_at from_timestamp now cfg history pending ≡ some w)
      × (now < w.wake_at)
      × (w.wake_at ≤ now + 48 * us_hour)
unfolding next_wake_at
next_wake_at_total from_timestamp now cfg history pending complete stamped low high =
    elim (Option-cases (plateau_count_from_history history)) [
      | inl e ↦ absurd (ground (arith, plateau_count_raises history, e, complete))
      | inr (plateau, e) ↦
          let (age, k) =
            age_if from_timestamp (reads_age now cfg plateau pending) history now stamped in
          let bounds = decide_wake_bounds now cfg plateau pending age low high in
          (
            decide_wake now cfg plateau pending age,
            rw (e, next_wake_at) (rw (k, next_wake_at) refl),
            bounds.0,
            bounds.1,
          )
    ]
