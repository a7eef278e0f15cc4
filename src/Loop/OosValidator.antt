-- ===== src/Loop/OosValidator.antt =====
-- The check against the quarter that was held out, app/loop/oos_validator.py; the texts of its
-- reasons are left out.
pub mod Robustness
mod Tests
use pyharmonics_gpt.Prelude.{
  ℕ, zero, suc, Bool, true, false, not, ◌&&◌, ◌||◌, Option, none, some, List, [], ◌∷◌, ltb, length,
  if◌then◌else◌,
}
use pyharmonics_gpt.Float.{Float, lt, add, sub, mul, div, lit, nought, max, min}
use pyharmonics_gpt.Loop.Checker.{or_zero}

pub record OosVerdict (F : Type 0) : Type 0 where
  pub passed : Bool
  pub robustness : F
  pub in_sample_mean_sharpe : F
  pub oos_sharpe : Option F
  pub oos_trade_count : ℕ

-- The keyword arguments.
pub record OosLimits (F : Type 0) : Type 0 where
  pub min_oos_trade_count : ℕ
  pub sharpe_floor : F
  pub sharpe_drop_tolerance : F

module _ {F : Type 0} ⦃d : Float F⦄ where
  -- the sum of `m.get("sharpe") or 0.0`
  abbrev pub sum_sharpes : F → List (Option F) → F
  sum_sharpes acc [] = acc
  sum_sharpes acc (none ∷ sharpes) = sum_sharpes (add acc nought) sharpes
  sum_sharpes acc (some s ∷ sharpes) = sum_sharpes (add acc s) sharpes

  unfoldable pub in_sample_mean : List (Option F) → F
  in_sample_mean sharpes = elim (length sharpes) [
    | zero ↦ nought
    | suc n ↦ div (sum_sharpes nought sharpes) (lit (suc n) 0)
  ]

  -- the flags 2 and 3, and a missing Sharpe
  unfoldable pub sharpe_fails : OosLimits F → F → Option F → Bool
  sharpe_fails limits mean none = true
  sharpe_fails limits mean (some s) =
      if lt s limits.sharpe_floor
      then true
      else lt s (mul mean (sub (lit 1 0) limits.sharpe_drop_tolerance))

  unfoldable pub robustness_of : F → Option F → F
  robustness_of mean none = nought
  robustness_of mean (some s) = max nought (min (lit 1 0) (div s (max mean (lit 1 2))))

  -- the metrics of the held-out quarter are its "sharpe" and its "trades_count"
  unfoldable pub oos_validate : OosLimits F → List (Option F) → Option F → Option ℕ → OosVerdict F
  unfolding in_sample_mean sharpe_fails robustness_of
  oos_validate limits sharpes oos_sharpe oos_tc =
      let mean = in_sample_mean sharpes in
      record {
        passed =
            not (ltb (or_zero oos_tc) limits.min_oos_trade_count)
            && not (sharpe_fails limits mean oos_sharpe);
        robustness = robustness_of mean oos_sharpe;
        in_sample_mean_sharpe = mean;
        oos_sharpe = oos_sharpe;
        oos_trade_count = or_zero oos_tc;
      }
