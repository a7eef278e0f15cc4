-- ===== src/Loop/Scheduler/Window.antt =====
-- Where `_next_active_window` lands.
use pyharmonics_gpt.Prelude.{
  ℕ, zero, suc, ◌+◌, ◌*◌, ◌≤◌, ◌<◌, ◌≡◌, refl, ◌∙◌, true, false, arith, inl, inr, Bool-cases, ap,
  sym,
}
use pyharmonics_gpt.Loop.Scheduler.{
  SchedulerConfig, us_hour, hour, weekday, snap_to_hour, in_quiet_hours, is_weekend, is_active,
  window_loop, next_active_window,
}

-- Two moments of the same hour are active or inactive together.
pub is_active_snap :
    (t : ℕ) (cfg : SchedulerConfig) → is_active (snap_to_hour t) cfg ≡ is_active t cfg
unfolding in_quiet_hours is_weekend
is_active_snap t cfg =
    let e : hour (snap_to_hour t) ≡ hour t = omega arith in
    let f : weekday (snap_to_hour t) ≡ weekday t = omega arith in ground (arith, e, f)

-- What a search of some rounds returns: the start of an active hour, reached in those rounds with
-- only inactive hours before it, or the fallback after none was active.
pub data Landing (cfg : SchedulerConfig) (now : ℕ) (from : ℕ) (rounds : ℕ) (w : ℕ) : Type 0 where
  found :
      (k : ℕ)
      → 1 ≤ k
      → k ≤ rounds
      → w ≡ snap_to_hour (from + k * us_hour)
      → is_active w cfg ≡ true
      → ((j : ℕ) → 1 ≤ j → j < k → is_active (from + j * us_hour) cfg ≡ false)
      → Landing cfg now from rounds w
  fallback :
      w ≡ now + 24 * us_hour
      → ((j : ℕ) → 1 ≤ j → j ≤ rounds → is_active (from + j * us_hour) cfg ≡ false)
      → Landing cfg now from rounds w

module _ (cfg : SchedulerConfig) (now : ℕ) where
  shift :
      (from j : ℕ)
      → is_active (from + us_hour + j * us_hour) cfg ≡ is_active (from + suc j * us_hour) cfg
  shift from j =
      let e : from + us_hour + j * us_hour ≡ from + suc j * us_hour = omega arith in
      ap (λ t. is_active t cfg) e

  -- an inactive hour in front of a stretch of inactive hours
  stretch :
      (from : ℕ) (P : ℕ → Type 0)
      → is_active (from + us_hour) cfg ≡ false
      → ((j : ℕ) → 1 ≤ j → P (suc j) → is_active (from + us_hour + j * us_hour) cfg ≡ false)
      → (j : ℕ) → 1 ≤ j
      → P j
      → is_active (from + j * us_hour) cfg ≡ false
  stretch from P first later zero h p = absurd (omega arith)
  stretch from P first later (suc zero) h p =
      let e : from + suc zero * us_hour ≡ from + us_hour = omega arith in rw e first
  stretch from P first later (suc (suc j)) h p =
      sym (shift from (suc j)) ∙ later (suc j) (omega arith) p

  window_loop-Landing :
      (rounds from : ℕ) → Landing cfg now from rounds (window_loop rounds from now cfg)
  unfolding window_loop
  window_loop-Landing zero from = fallback refl (λ j h k. absurd (omega arith))
  window_loop-Landing (suc rounds) from = elim (Bool-cases (is_active (from + us_hour) cfg)) [
    | inl a ↦ rw a (first_hour a)
    | inr a ↦ rw a (later_hour a (window_loop-Landing rounds (from + us_hour)))
  ]
    where
      first_hour :
          is_active (from + us_hour) cfg ≡ true
          → Landing cfg now from (suc rounds) (snap_to_hour (from + us_hour))
      first_hour a =
          let e : from + us_hour ≡ from + 1 * us_hour = omega arith in
          found 1 (omega arith) (omega arith) (ap snap_to_hour e)
            (is_active_snap (from + us_hour) cfg ∙ a) (λ j h k. absurd (omega arith))

      later_hour :
          {w : ℕ}
          → is_active (from + us_hour) cfg ≡ false
          → Landing cfg now (from + us_hour) rounds w
          → Landing cfg now from (suc rounds) w
      later_hour a (found k h1 h2 e b before) =
          let r : from + us_hour + k * us_hour ≡ from + suc k * us_hour = omega arith in
          found (suc k) (omega arith) (omega arith) (e ∙ ap snap_to_hour r) b
            (stretch from (λ j. j < suc k) a (λ j h p. before j h (omega arith)))
      later_hour a (fallback e before) =
          fallback e (stretch from (λ j. j ≤ suc rounds) a (λ j h p. before j h (omega arith)))

  -- The returned time is the start of the first active hour after `now`, found among the next 48,
  -- or 24 hours from `now` if all 48 are inactive.
  pub next_active_window-Landing : Landing cfg now now 48 (next_active_window now cfg)
  unfolding next_active_window
  next_active_window-Landing = window_loop-Landing 48 now
