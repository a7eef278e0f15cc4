-- ===== src/Services/MacroBias/Sizing.antt =====
-- The multiplier of a signal against the trend, for constants that `__post_init__` accepts.
use pyharmonics_gpt.Prelude.{
  ◌≡◌, ◌⊎◌, refl, Bool, true, false, inl, inr, none, some, str_eq, ℤ, pos, negsuc, ltb_ℤ,
  if◌then◌else◌,
}
use pyharmonics_gpt.Float.{Float, IsOrdered, IsNumber, le, gt, ge, lit, abs}
use pyharmonics_gpt.Config.Tuning.{TuningConstants, post_init}
use pyharmonics_gpt.Config.Tuning.Coherence.{IsCoherent, post_init-IsCoherent}
use pyharmonics_gpt.Services.MacroBias.{
  DailyClose, MacroOverlay, deviation_of, slope_of, is_aligned, banded, judged, by_direction,
  compute,
}

abbrev pub dir_of : Bool → ℤ
dir_of is_long = if is_long then pos 1 else negsuc 0

module _ {F : Type 0} ⦃d : Float F⦄ where
  banded-aligned :
      (t : TuningConstants F) (aligned extreme trending_up trending_down is_long : Bool)
      → IsCoherent t
      → let x = banded t aligned extreme trending_up trending_down is_long in
        (str_eq x.1 "顺势" ≡ aligned) × ((aligned ≡ true) ⊎ (le x.0 (lit 15 1) ≡ true))
  unfolding banded
  banded-aligned t true false true trending_down is_long h = (refl, inl refl)
  banded-aligned t true true true trending_down is_long h = (refl, inl refl)
  banded-aligned t true false false true is_long h = (refl, inl refl)
  banded-aligned t true true false true is_long h = (refl, inl refl)
  banded-aligned t true false false false is_long h = (refl, inl refl)
  banded-aligned t true true false false is_long h = (refl, inl refl)
  banded-aligned t false true trending_up trending_down is_long h =
      (refl, inr h.extreme_ceiling_kept)
  banded-aligned t false false true trending_down true h = (refl, inr h.trending_ceiling)
  banded-aligned t false false true true false h = (refl, inr h.trending_ceiling)
  banded-aligned t false false true false false h = (refl, inr h.ranging_ceiling)
  banded-aligned t false false false true true h = (refl, inr h.ranging_ceiling)
  banded-aligned t false false false true false h = (refl, inr h.trending_ceiling)
  banded-aligned t false false false false is_long h = (refl, inr h.ranging_ceiling)

  -- For constants that `__post_init__` accepts, whose inverse and extreme multipliers are numbers, a
  -- long or a short on a daily series that is long enough always gets an overlay. It is called with the
  -- trend exactly if the price stands on its side of the average, whatever the slope of the average
  -- is; else the size multiplier is at most 1.5.
  pub compute_sized :
      (o : IsOrdered F) (t : TuningConstants F) (round1 : F → F) (s : DailyClose F) (is_long : Bool)
      → IsNumber t.mult_trending_inverse
      → IsNumber t.mult_ranging_inverse
      → IsNumber t.mult_extreme_inverse
      → post_init t ≡ none
      → ltb_ℤ (pos s.size) t.min_daily_bars ≡ false
      → (overlay : MacroOverlay F) × (compute round1 t (some s) (dir_of is_long) ≡ some overlay)
        × (str_eq overlay.signal_vs_macro "顺势" ≡ is_aligned s is_long)
        × ((is_aligned s is_long ≡ true) ⊎ (le overlay.size_mult (lit 15 1) ≡ true))
  unfolding compute by_direction judged
  compute_sized o t round1 s is_long ht hr he accepted enough =
      let (verdict, sized) =
        banded-aligned t (is_aligned s is_long) (gt (abs (deviation_of s)) t.extreme_deviation_pct)
          (ge (slope_of s) t.slope_trend_up) (le (slope_of s) t.slope_trend_down) is_long
          (post_init-IsCoherent o t ht hr he accepted) in
      (judged round1 t s is_long, of_dir is_long, verdict, sized)
    where
      of_dir : (b : Bool) → compute round1 t (some s) (dir_of b) ≡ some (judged round1 t s b)
      of_dir true = rw enough refl
      of_dir false = rw enough refl
