-- ===== src/Services/MacroBias.antt =====
-- app/services/macro_bias.py: the size multiplier of a signal from the daily trend, without the texts
-- of the advice. The series is its length, its last price, and the moving average that pandas computes.
pub mod Sizing
mod Tests
use pyharmonics_gpt.Prelude.{
  ℕ, Bool, true, false, not, ◌&&◌, ◌||◌, Option, none, some, String, ℤ, pos, negsuc, ltb_ℤ, leb_ℤ,
  if◌then◌else◌,
}
use pyharmonics_gpt.Float.{Float, le, gt, ge, sub, mul, div, lit, nought, abs}
use pyharmonics_gpt.Config.Tuning.{TuningConstants}

pub record DailyClose (F : Type 0) : Type 0 where
  pub size : ℕ
  pub price : F
  pub ema200 : F
  -- the average 20 days before, if there are 21 of them
  pub ema200_before : Option F

pub record MacroOverlay (F : Type 0) : Type 0 where
  pub size_mult : F
  pub macro_dir : String
  pub signal_vs_macro : String
  pub deviation_pct : F
  pub ema200_slope_20d : F

abbrev pub is_direction : ℤ → Bool
is_direction signal_dir = leb_ℤ (negsuc 0) signal_dir && leb_ℤ signal_dir (pos 1)

-- `signal_dir` of a long, of a short, or of neither
pub data Direction : Type 0 where
  long short neither : Direction

abbrev pub direction_of : ℤ → Direction
direction_of signal_dir =
    if leb_ℤ (pos 1) signal_dir
    then long
    else if leb_ℤ signal_dir (negsuc 0)
    then short
    else neither

module _ {F : Type 0} ⦃d : Float F⦄ where
  unfoldable pub deviation_of : DailyClose F → F
  deviation_of s =
      if gt s.ema200 nought then mul (sub (div s.price s.ema200) (lit 1 0)) (lit 100 0) else nought

  unfoldable pub slope_of : DailyClose F → F
  slope_of s = elim s.ema200_before [
    | none ↦ nought
    | some before ↦
        if gt before nought then mul (sub (div s.ema200 before) (lit 1 0)) (lit 100 0) else nought
  ]

  -- the price is above the average for a long, or not above it for a short
  unfoldable pub is_aligned : DailyClose F → Bool → Bool
  is_aligned s is_long =
      (is_long && gt s.price s.ema200) || (not is_long && not (gt s.price s.ema200))

  -- the multiplier and the verdict, of the branches from the first on
  unfoldable pub banded : TuningConstants F → Bool → Bool → Bool → Bool → Bool → F × String
  banded t aligned extreme trending_up trending_down is_long =
      let ranging = not (trending_up || trending_down) in
      if extreme && not aligned
      then (t.mult_extreme_inverse, "逆势+极端")
      else if aligned && not ranging
      then (t.mult_trending_aligned, "顺势")
      else if aligned && ranging
      then (t.mult_ranging_aligned, "顺势")
      else if not aligned && trending_up && is_long
      then (t.mult_trending_inverse, "逆势")
      else if not aligned && trending_down && not is_long
      then (t.mult_trending_inverse, "逆势")
      else (t.mult_ranging_inverse, "逆势")

  unfoldable pub judged : (F → F) → TuningConstants F → DailyClose F → Bool → MacroOverlay F
  unfolding deviation_of slope_of is_aligned banded
  judged round1 t s is_long =
      let slope = slope_of s in
      let deviation = deviation_of s in
      let (size_mult, verdict) =
        banded t (is_aligned s is_long) (gt (abs deviation) t.extreme_deviation_pct)
          (ge slope t.slope_trend_up) (le slope t.slope_trend_down) is_long in
      record {
        size_mult = size_mult;
        macro_dir = if gt s.price s.ema200 then "牛市(价>EMA200)" else "熊市(价<EMA200)";
        signal_vs_macro = verdict;
        deviation_pct = round1 deviation;
        ema200_slope_20d = round1 slope;
      }

  abbrev pub data_short : TuningConstants F → MacroOverlay F
  data_short t = record {
    size_mult = t.mult_data_short;
    macro_dir = "数据不足";
    signal_vs_macro = "未知";
    deviation_pct = nought;
    ema200_slope_20d = nought;
  }

  abbrev pub no_direction : MacroOverlay F
  no_direction = record {
    size_mult = lit 1 0;
    macro_dir = "unknown";
    signal_vs_macro = "unknown";
    deviation_pct = nought;
    ema200_slope_20d = nought;
  }

  unfoldable pub by_direction :
      (F → F) → TuningConstants F → DailyClose F → Direction → MacroOverlay F
  unfolding judged
  by_direction round1 t s neither = no_direction
  by_direction round1 t s long = judged round1 t s true
  by_direction round1 t s short = judged round1 t s false

  -- `none` is a contract violation
  unfoldable pub compute :
      (F → F) → TuningConstants F → Option (DailyClose F) → ℤ → Option (MacroOverlay F)
  unfolding by_direction
  compute round1 t none signal_dir = if is_direction signal_dir then some (data_short t) else none
  compute round1 t (some s) signal_dir =
      if not (is_direction signal_dir)
      then none
      else if ltb_ℤ (pos s.size) t.min_daily_bars
      then some (data_short t)
      else some (by_direction round1 t s (direction_of signal_dir))
