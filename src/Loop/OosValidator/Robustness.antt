-- ===== src/Loop/OosValidator/Robustness.antt =====
-- What a passed validation shows, and the range of the robustness.
use pyharmonics_gpt.Prelude.{ℕ, ◌≤◌, ◌≡◌, refl, true, false, arith, Option, none, some, List}
use pyharmonics_gpt.Float.{
  Float, IsOrdered, lt, le, sub, mul, div, lit, nought, max, min, le-max_left, min-le_left,
}
use pyharmonics_gpt.Loop.Checker.{or_zero}
use pyharmonics_gpt.Loop.OosValidator.{
  OosLimits, in_sample_mean, sharpe_fails, robustness_of, oos_validate,
}

module _ {F : Type 0} ⦃d : Float F⦄ where
  -- the ratio is there, not below the floor, and not below the tolerated part of the mean
  abbrev pub Holds : OosLimits F → F → Option F → Type 0
  Holds limits mean sharpe =
      (s : F) × (sharpe ≡ some s)
      × (lt s limits.sharpe_floor ≡ false)
      × (lt s (mul mean (sub (lit 1 0) limits.sharpe_drop_tolerance)) ≡ false)

  not_failed :
      (limits : OosLimits F) (mean : F) (sharpe : Option F)
      → sharpe_fails limits mean sharpe ≡ false
      → Holds limits mean sharpe
  unfolding sharpe_fails
  not_failed limits mean none h = absurd (ground (arith, h))
  not_failed limits mean (some s) h = (s, refl, ground arith, ground arith)

  robustness-bounds :
      (o : IsOrdered F) (mean : F) (sharpe : Option F)
      → le {F = F} nought (lit 1 0) ≡ true
      → (le nought (robustness_of mean sharpe) ≡ true)
        × (le (robustness_of mean sharpe) (lit 1 0) ≡ true)
  unfolding robustness_of
  robustness-bounds o mean none h = (o.lit_IsNumber 0 0, h)
  robustness-bounds o mean (some s) h =
      let clipped = min (lit 1 0) (div s (max mean (lit 1 2))) in
      (
        le-max_left o nought clipped (o.lit_IsNumber 0 0),
        ground
            (arith, h, min-le_left o (lit 1 0) (div s (max mean (lit 1 2))) (o.lit_IsNumber 1 0)),
      )

  -- The robustness lies between 0 and 1, whatever the ratios are, NaN included, if the literals 0.0
  -- and 1.0 are in order.
  pub oos_validate-robustness :
      (o : IsOrdered F) (limits : OosLimits F) (sharpes : List (Option F)) (oos_sharpe : Option F)
      (oos_tc : Option ℕ)
      → le {F = F} nought (lit 1 0) ≡ true
      → let verdict = oos_validate limits sharpes oos_sharpe oos_tc in
        (le nought verdict.robustness ≡ true) × (le verdict.robustness (lit 1 0) ≡ true)
  unfolding oos_validate
  oos_validate-robustness o limits sharpes oos_sharpe oos_tc h =
      robustness-bounds o (in_sample_mean sharpes) oos_sharpe h

  -- A candidate that passes has as many trades in the held-out quarter as the limit asks, and its
  -- Sharpe ratio there is given and neither below the floor nor below the tolerated part of the
  -- in-sample mean.
  pub oos_validate-Holds :
      (limits : OosLimits F) (sharpes : List (Option F)) (oos_sharpe : Option F) (oos_tc : Option ℕ)
      → (oos_validate limits sharpes oos_sharpe oos_tc).passed ≡ true
      → (limits.min_oos_trade_count ≤ or_zero oos_tc)
        × Holds limits (in_sample_mean sharpes) oos_sharpe
  unfolding oos_validate
  oos_validate-Holds limits sharpes oos_sharpe oos_tc p =
      (ground arith, not_failed limits (in_sample_mean sharpes) oos_sharpe (ground arith))
