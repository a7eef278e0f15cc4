-- ===== src/Loop/OosValidator/Tests.antt =====
-- The out-of-sample check at one candidate, in thousandths.
use pyharmonics_gpt.Prelude.{◌≤◌, ◌≡◌, refl, false, none, some, [], ◌∷◌, ℤ, pos, ◌*ℤ◌, ◌+ℤ◌, ◌-ℤ◌}
use pyharmonics_gpt.Float.Fixed.{milli_float, milli_add, milli_sub, milli_mul, milli_div}
use pyharmonics_gpt.Loop.Checker.{or_zero}
use pyharmonics_gpt.Loop.OosValidator.{
  OosLimits, in_sample_mean, sharpe_fails, robustness_of, oos_validate,
}
use pyharmonics_gpt.Loop.OosValidator.Robustness.{Holds, oos_validate-Holds}

abbrev limits : OosLimits ℤ
limits = record { min_oos_trade_count = 15; sharpe_floor = pos 0; sharpe_drop_tolerance = pos 500 }

collapse_fails :
    (oos_validate limits (some (pos 1000) ∷ some (pos 2000) ∷ []) (some (pos 700)) (some 20)).passed
    ≡ false
unfolding oos_validate in_sample_mean sharpe_fails robustness_of milli_add milli_sub milli_mul
    milli_div ◌*ℤ◌ ◌+ℤ◌ ◌-ℤ◌
collapse_fails = refl

oos_validate-Holds_example :
    (15 ≤ or_zero (some 20))
    × Holds limits (in_sample_mean (some (pos 1000) ∷ none ∷ [])) (some (pos 700))
unfolding oos_validate in_sample_mean sharpe_fails robustness_of milli_add milli_sub milli_mul
    milli_div ◌*ℤ◌ ◌+ℤ◌ ◌-ℤ◌
oos_validate-Holds_example =
    oos_validate-Holds limits (some (pos 1000) ∷ none ∷ []) (some (pos 700)) (some 20) refl
