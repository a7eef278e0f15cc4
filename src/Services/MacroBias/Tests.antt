-- ===== src/Services/MacroBias/Tests.antt =====
-- A long below a falling average, with the default constants, in thousandths.
use pyharmonics_gpt.Prelude.{◌≡◌, ◌⊎◌, refl, true, ◌+ℤ◌, ◌-ℤ◌, none, some, str_eq, ℤ, pos, negsuc}
use pyharmonics_gpt.Float.{le}
use pyharmonics_gpt.Float.Fixed.{
  milli_float, milli_add, milli_sub, milli_mul, milli_div, Milli-IsOrdered,
}
use pyharmonics_gpt.Config.Tuning.{
  is_member, lacks_member, lacks_key, sum_ℤ, sum_values, standard_out_of_bounds, hard_checks,
  soft_checks, window_checks, int_fields, post_init, tuning,
}
use pyharmonics_gpt.Dict.{lookup, contains}
use pyharmonics_gpt.Services.MacroBias.{
  DailyClose, MacroOverlay, deviation_of, slope_of, is_aligned, banded, judged, by_direction,
  compute,
}
use pyharmonics_gpt.Services.MacroBias.Sizing.{dir_of, compute_sized}

abbrev daily : DailyClose ℤ
daily = record {
  size = 300;
  price = pos 95_000;
  ema200 = pos 100_000;
  ema200_before = some (pos 101_000);
}

abbrev as_is : ℤ → ℤ
as_is x = x

halved :
    compute as_is tuning (some daily) (pos 1)
    ≡ some (record {
      size_mult = pos 500;
      macro_dir = "熊市(价<EMA200)";
      signal_vs_macro = "逆势";
      deviation_pct = negsuc 4_999;
      ema200_slope_20d = negsuc 999;
    })
unfolding compute by_direction judged banded is_aligned deviation_of slope_of milli_sub milli_mul
    milli_div
halved = refl

refused : compute as_is tuning (some daily) (pos 2) ≡ none
unfolding compute
refused = refl

default_is_accepted : post_init (tuning {F = ℤ}) ≡ none
unfolding post_init hard_checks soft_checks window_checks int_fields lacks_member lacks_key
    is_member sum_ℤ sum_values standard_out_of_bounds contains lookup milli_add milli_sub ◌+ℤ◌ ◌-ℤ◌
default_is_accepted = refl

compute_sized_example :
    (overlay : MacroOverlay ℤ) × (compute as_is tuning (some daily) (dir_of true) ≡ some overlay)
    × (str_eq overlay.signal_vs_macro "顺势" ≡ is_aligned daily true)
    × ((is_aligned daily true ≡ true) ⊎ (le overlay.size_mult (pos 1_500) ≡ true))
compute_sized_example =
    compute_sized Milli-IsOrdered tuning as_is daily true refl refl refl default_is_accepted refl
