-- ===== src/Domain/RsiPlan/Tests.antt =====
-- The plan's decision at one market, in thousandths.
use pyharmonics_gpt.Prelude.{◌≡◌, refl, false, some, [], ◌∷◌, map, ℤ, pos, ◌*ℤ◌, ◌+ℤ◌, ◌-ℤ◌}
use pyharmonics_gpt.Float.Fixed.{milli_float, milli_add, milli_sub, milli_mul, milli_div}
use pyharmonics_gpt.Domain.RsiPlan.{
  MarketOverview, compute_trend_strength, volatility_regime_of, compute_confidence, compute_targets,
}

abbrev as_is : ℤ → ℤ
as_is x = x

abbrev bull_market : MarketOverview ℤ
bull_market = record {
  trend = "bullish";
  trend_strength = pos 700;
  deviation_pct = pos 4000;
  volatility_regime = "normal";
  entangled = false;
}

strong_trend :
    compute_trend_strength as_is (pos 110_000) (pos 100_000) (pos 105_000) (some (pos 2000))
    ≡ pos 1000
unfolding compute_trend_strength milli_add milli_sub milli_mul milli_div ◌*ℤ◌ ◌+ℤ◌ ◌-ℤ◌
strong_trend = refl

high_volatility_of_five_percent : volatility_regime_of (some (pos 5000)) (pos 100_000) ≡ "high"
unfolding volatility_regime_of milli_mul milli_div ◌*ℤ◌
high_volatility_of_five_percent = refl

fresh_is_confident : compute_confidence (pos 1000) (pos 100_000) 0 ≡ pos 940
unfolding compute_confidence milli_add milli_sub milli_mul milli_div ◌*ℤ◌ ◌+ℤ◌ ◌-ℤ◌
fresh_is_confident = refl

short_targets :
    map (λ t. t.price) (compute_targets as_is (pos 100_000) (pos 102_000) "short")
    ≡ pos 98_000 ∷ pos 96_000 ∷ pos 93_000 ∷ []
unfolding compute_targets milli_add milli_sub milli_mul ◌*ℤ◌ ◌+ℤ◌ ◌-ℤ◌
short_targets = refl
