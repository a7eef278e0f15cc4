-- ===== src/Domain/Validation/Tests.antt =====
-- The validity filter at one candidate, and the trap score of a frame, in thousandths.
use mathlib.Core.Logic.{◌↔◌}
use pyharmonics_gpt.Prelude.{
  ℕ, ◌≡◌, ◌≤◌, refl, true, false, none, some, [], ◌∷◌, str_eq, ℤ, pos, negsuc, ◌*ℤ◌, ◌+ℤ◌, ◌-ℤ◌,
  zero, suc, List,
}
use pyharmonics_gpt.Float.Fixed.{milli_float, milli_add, milli_sub, milli_mul, milli_div}
use pyharmonics_gpt.Domain.Signals.{
  Candidate, Tuning, prz_low, prz_high, x_price, a_price, known_level, base_buffer,
  regime_multiplier, grade_multiplier, effective_multiplier, structural_anchor, swing_or, stop_at,
  stop_requires, ensured, compute_stop, compute_targets,
}
use pyharmonics_gpt.Domain.Validation.{
  violated, is_far, is_aged, is_degenerate, completed_reason, rejection_reason, filter_candidates,
  direction_invariant_ok, adverse_momentum_veto, trap_curve, trap_stop_multiplier,
}
use pyharmonics_gpt.Domain.Validation.Filtering.{Open, valid-Open}
use pyharmonics_gpt.Domain.Validation.Frames.{
  Bar, tail_rows, false_breaks, is_false_break, stop_hunts, is_stop_hunt, climaxes, is_climax,
  fails_zone, breakout_score, penalised, trap_of, quant_trap_risk,
}
use pyharmonics_gpt.Domain.Validation.Traps.{quant_trap_risk-never_widens}

abbrev as_is : ℤ → ℤ
as_is x = x

abbrev constants : Tuning ℤ
constants = record {
  fib_tp1 = pos 382;
  fib_tp2 = pos 618;
  fib_tp3 = pos 1272;
  conservative_buffer = pos 1000;
  standard_buffer = pos 300;
  aggressive_buffer = pos 250;
  is_extended = λ name. str_eq name "crab";
  fee_rate = pos 1;
  slippage_rate = pos 1;
  max_prz_distance_atr = pos 3000;
  max_d_age_bars = 20;
  max_forming_prz_width_atr = pos 1000;
  default_ttl_bars = 40;
}

-- a long with X at this price
abbrev with_x : ℕ → Candidate ℤ
with_x x = record {
  family = "XABCD";
  name = "bat";
  bullish = true;
  formed = true;
  points = pos x ∷ pos 120_000 ∷ pos 105_000 ∷ pos 115_000 ∷ pos 95_000 ∷ [];
  completion_min = pos 94_000;
  completion_max = pos 96_000;
  times = 7 ∷ [];
  indices = [];
}

two_candidates :
    filter_candidates as_is constants
      (with_x 90_000 ∷ with_x 93_900 ∷ [])
      (pos 93_000)
      (pos 2000)
      (some (8 ∷ 9 ∷ []))
    ≡ some (with_x 90_000 ∷ [], (with_x 93_900, violated) ∷ [])
unfolding filter_candidates rejection_reason is_far is_aged is_degenerate completed_reason
    compute_targets a_price compute_stop stop_requires structural_anchor swing_or stop_at
    effective_multiplier ensured known_level base_buffer regime_multiplier grade_multiplier prz_low
    prz_high x_price milli_mul milli_sub milli_add milli_div ◌*ℤ◌ ◌-ℤ◌ ◌+ℤ◌
two_candidates = refl

valid-Open_example :
    (rejection_reason as_is constants (with_x 90_000) (pos 93_000) (pos 2000) none ≡ some none)
    ↔ Open as_is constants (pos 93_000) (pos 2000) none (with_x 90_000)
valid-Open_example = valid-Open as_is constants (pos 93_000) (pos 2000) none (with_x 90_000) refl

knife_is_vetoed : adverse_momentum_veto "long" (negsuc 2999) (pos 1000) ≡ true
unfolding adverse_momentum_veto milli_sub ◌-ℤ◌
knife_is_vetoed = refl

long_geometry :
    direction_invariant_ok "long"
      (pos 95_000)
      (pos 91_000)
      (pos 104_000 ∷ pos 110_000 ∷ pos 126_000 ∷ [])
    ≡ true
unfolding direction_invariant_ok
long_geometry = refl

-- the cap is reached at 90
trap_cap : trap_stop_multiplier {F = ℤ} 90 ≡ some (pos 2000)
unfolding trap_stop_multiplier trap_curve milli_add milli_mul milli_div ◌*ℤ◌ ◌+ℤ◌
trap_cap = refl

-- a bar that closes at its open
abbrev still_bar : ℕ → ℕ → ℕ → ℕ → Bar ℤ
still_bar low close high volume = record {
  open_price = pos close;
  high = pos high;
  low = pos low;
  close = pos close;
  volume = pos volume;
}

-- fourteen bars, in which the volume doubles and doubles again with no body
abbrev absorbing_bars : ℕ → List (Bar ℤ)
absorbing_bars zero = still_bar 90_000 100_000 110_000 1_000 ∷ []
absorbing_bars (suc n) =
    still_bar 90_000 100_000 110_000 1_000
    ∷ still_bar 90_000 100_000 110_000 3_000
    ∷ absorbing_bars n

absorbed_score : quant_trap_risk 60 (absorbing_bars 8) (pos 50_000) (pos 60_000) true ≡ (35, false)
unfolding quant_trap_risk tail_rows trap_of false_breaks is_false_break stop_hunts is_stop_hunt
    climaxes is_climax fails_zone breakout_score penalised milli_mul milli_div milli_sub
absorbed_score = refl

quant_trap_risk-never_widens_example :
    let score = (quant_trap_risk {F = ℤ} 60 (absorbing_bars 8) (pos 50_000) (pos 60_000) true).0 in
    (score ≤ 50) × (trap_stop_multiplier {F = ℤ} score ≡ some (pos 1_000))
quant_trap_risk-never_widens_example =
    quant_trap_risk-never_widens 60 (absorbing_bars 8) (pos 50_000) (pos 60_000) true refl refl
