-- ===== src/Domain/Signals/Tests.antt =====
-- The signal math at one candidate, in thousandths.
use pyharmonics_gpt.Prelude.{
  ◌≤◌, ◌≡◌, refl, true, false, ◌||◌, none, some, [], ◌∷◌, str_eq, ℤ, pos, arith, ◌*ℤ◌, ◌+ℤ◌, ◌-ℤ◌,
}
use pyharmonics_gpt.Float.Fixed.{
  milli_float, milli_add, milli_sub, milli_mul, milli_div, Milli-IsOrdered,
}
use pyharmonics_gpt.Float.Rounding.{Milli-IsRounded}
use pyharmonics_gpt.Domain.Signals.{
  Candidate, Tuning, StopOptions, prz_low, prz_high, prz_state, is_swept, x_price, known_level,
  base_buffer, regime_multiplier, grade_multiplier, effective_multiplier, structural_anchor,
  swing_or, stop_at, stop_requires, ensured, compute_stop, net_rr, reference_grade, grade_of,
  grade_requires, graded, grade, at_least,
}
use pyharmonics_gpt.Domain.Signals.Stops.{Placed, compute_stop-Placed}
use pyharmonics_gpt.Domain.Signals.Grades.{rank, Earns, grade-monotone, grade-IsEarned}

abbrev as_is : ℤ → ℤ
as_is x = x

abbrev tuning : Tuning ℤ
tuning = record {
  fib_tp1 = pos 382;
  fib_tp2 = pos 618;
  fib_tp3 = pos 1272;
  conservative_buffer = pos 1000;
  standard_buffer = pos 300;
  aggressive_buffer = pos 250;
  is_extended = λ name. str_eq name "crab" || str_eq name "butterfly";
  fee_rate = pos 1;
  slippage_rate = pos 1;
  max_prz_distance_atr = pos 3000;
  max_d_age_bars = 20;
  max_forming_prz_width_atr = pos 1000;
  default_ttl_bars = 40;
}

abbrev bat : Candidate ℤ
bat = record {
  family = "XABCD";
  name = "bat";
  bullish = true;
  formed = true;
  points = pos 90_000 ∷ pos 120_000 ∷ pos 105_000 ∷ pos 115_000 ∷ pos 95_000 ∷ [];
  completion_min = pos 94_000;
  completion_max = pos 96_000;
  times = [];
  indices = [];
}

abbrev with_swing : StopOptions ℤ
with_swing = record {
  level = "standard";
  swing_anchor = some (pos 93_000);
  entry = some (pos 95_000);
  trap_multiplier = pos 1500;
  regime = "high_quant";
  grade = some "B";
  stop_buffer_atr = none;
}

-- 0.3 × 1.5 × 1.5 = 0.675, of an ATR of 2, below the swing
stop_below_swing :
    compute_stop as_is tuning bat (pos 2000) with_swing ≡ some (pos 91_650, pos 93_000)
unfolding compute_stop stop_requires structural_anchor swing_or stop_at effective_multiplier ensured
    known_level base_buffer regime_multiplier grade_multiplier prz_low prz_high x_price milli_mul
    milli_sub ◌*ℤ◌ ◌-ℤ◌
stop_below_swing = refl

compute_stop-Placed_example :
    Placed Milli-IsOrdered Milli-IsRounded tuning bat (pos 2000) with_swing (pos 91_650, pos 93_000)
unfolding compute_stop stop_requires structural_anchor swing_or stop_at effective_multiplier ensured
    known_level base_buffer regime_multiplier grade_multiplier prz_low prz_high x_price milli_mul
    milli_sub ◌*ℤ◌ ◌-ℤ◌
compute_stop-Placed_example =
    compute_stop-Placed Milli-IsOrdered Milli-IsRounded tuning bat (pos 2000) with_swing
      (pos 91_650, pos 93_000) refl refl refl

sweep : is_swept (pos 93_500) (pos 96_500) (pos 95_000) (prz_low bat) (prz_high bat) ≡ true
unfolding is_swept prz_low prz_high
sweep = refl

inside : prz_state (pos 95_000) (prz_low bat) (prz_high bat) false ≡ "in_prz"
unfolding prz_state prz_low prz_high
inside = refl

grade-monotone_example : rank (some "B") ≤ rank (some "A")
unfolding grade graded grade_of grade_requires reference_grade
grade-monotone_example =
    grade-monotone 62 80 (some (pos 1200)) (some (pos 2100)) true false 75 none (some "B")
      (some "A") (omega arith) refl refl

grade-IsEarned_example :
    (one : ℤ) × (two : ℤ) × (some (pos 1200) ≡ some one)
    × (some (pos 2100) ≡ some two)
    × Earns (at_least 80) one two true false 75 none
unfolding grade graded grade_of grade_requires reference_grade
grade-IsEarned_example =
    grade-IsEarned 80 (some (pos 1200)) (some (pos 2100)) true false 75 none (some "A") refl
      (omega arith)

costs_are_net :
    net_rr as_is (pos 1) (pos 1) (pos 95_000) (pos 91_650) (pos 104_550) ≡ some (some (pos 2458))
unfolding net_rr milli_mul milli_sub milli_add milli_div ◌*ℤ◌ ◌-ℤ◌ ◌+ℤ◌
costs_are_net = refl
