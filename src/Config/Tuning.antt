-- ===== src/Config/Tuning.antt =====
-- The tuning constants, app/config/tuning.py: `TuningConstants` and its `__post_init__`. An error is
-- named for its check, without the text. Where the source mixes int and float in a dict of weights,
-- a number is a float.
pub mod Scopes
pub mod Fields
pub mod Coherence
pub mod RoundTrip
mod Tests
use pyharmonics_gpt.Prelude.{
  ℕ, Bool, true, false, not, ◌&&◌, ◌||◌, Option, none, some, List, [], ◌∷◌, ◌++◌, map, String,
  str_eq, any, all, ℤ, pos, negsuc, ◌+ℤ◌, ltb_ℤ, leb_ℤ, if◌then◌else◌,
}
use pyharmonics_gpt.Float.{Float, lt, le, gt, add, sub, lit, nought, abs, neg, max, min}
use pyharmonics_gpt.Dict.{Dict, lookup, contains}

-- A frozenset is the list of its members.
pub record TuningConstants (F : Type 0) : Type 0 where
  pub fib_tp1 : F
  pub fib_tp2 : F
  pub fib_tp3 : F
  pub extended_patterns : List String
  pub htf_rule : Dict String
  pub atr_stop_buffer : Dict F
  pub atr_prz_sweep : F
  pub tp_close_pcts : List ℤ
  pub fee_rate : F
  pub slippage_rate : F
  pub max_d_age_bars : ℤ
  pub max_prz_distance_atr : F
  pub max_forming_prz_width_atr : F
  pub authenticity_halve : ℤ
  pub authenticity_veto : ℤ
  pub adverse_sharpe_threshold : F
  pub regime_moderate : ℤ
  pub regime_high : ℤ
  pub target_atr_pct : F
  pub default_ttl_bars : ℤ
  pub funding_confluence_default : ℤ
  pub confluence_weights : Dict F
  pub a_grade_min : ℤ
  pub a_grade_min_high_quant : ℤ
  pub high_quant_position_mult : F
  pub pattern_base_score : Dict F
  pub stability_window : ℤ
  pub min_candles : ℤ
  pub atr_window : ℤ
  pub atr_long_window : ℤ
  pub rsi_window : ℤ
  pub volume_ma_window : ℤ
  pub swing_lookback : ℤ
  pub quant_trap_lookback : ℤ
  pub volume_authenticity_window : ℤ
  pub quant_regime_window : ℤ
  pub per_bar_sharpe_window : ℤ
  pub slope_trend_up : F
  pub slope_trend_down : F
  pub mult_trending_aligned : F
  pub mult_ranging_aligned : F
  pub mult_trending_inverse : F
  pub mult_ranging_inverse : F
  pub mult_extreme_inverse : F
  pub mult_data_short : F
  pub extreme_deviation_pct : F
  pub min_daily_bars : ℤ

-- The checks of `__post_init__`, in its order.
pub data TuningError : Type 0 where
  fib_order tp_close_sum authenticity_order regime_order weight_sum weight_keys extended_families
        stop_levels standard_buffer htf_intervals pattern_families extreme_below_inverse :
      TuningError
  aligned_below_inverse : String → TuningError
  data_short_range extreme_ceiling not_positive atr_windows : TuningError

abbrev pub required_extended_families : List String
required_extended_families =
    "butterfly" ∷ "deep butterfly" ∷ "crab" ∷ "deep crab" ∷ "shark" ∷ "deep shark" ∷ []

abbrev pub required_pattern_families : List String
required_pattern_families = "gartley" ∷ "bat" ∷ "butterfly" ∷ "crab" ∷ "deep crab" ∷ "shark" ∷ []

abbrev pub required_confluence_keys : List String
required_confluence_keys =
    "price_action" ∷ "htf_trend" ∷ "rsi" ∷ "structure" ∷ "macd" ∷ "funding" ∷ []

abbrev pub required_stop_loss_levels : List String
required_stop_loss_levels = "conservative" ∷ "standard" ∷ "aggressive" ∷ []

abbrev pub required_htf_keys : List String
required_htf_keys = "15m" ∷ "1h" ∷ "4h" ∷ "1d" ∷ "1w" ∷ []

-- `x == 100`
abbrev pub is_hundred : ℤ → Bool
is_hundred x = leb_ℤ x (pos 100) && leb_ℤ (pos 100) x

-- `x in xs`
unfoldable pub is_member : String → List String → Bool
is_member x xs = any (λ y. str_eq y x) xs

-- `required - set(m.keys())` is not empty
unfoldable pub lacks_key : {A : Type 0} → List String → Dict A → Bool
lacks_key required m = not (all (λ k. contains k m) required)

-- `required - set(xs)` is not empty
unfoldable pub lacks_member : List String → List String → Bool
unfolding is_member
lacks_member required xs = not (all (λ x. is_member x xs) required)

unfoldable pub sum_ℤ : List ℤ → ℤ
sum_ℤ [] = pos 0
sum_ℤ (x ∷ xs) = x +ℤ sum_ℤ xs

-- the first check that fails
abbrev pub first_error : List (Bool × TuningError) → Option TuningError
first_error [] = none
first_error ((failed, e) ∷ checks) = if failed then some e else first_error checks

module _ {F : Type 0} ⦃d : Float F⦄ where
  -- `sum(m.values())`, from a partial sum
  unfoldable pub sum_values : F → Dict F → F
  sum_values acc [] = acc
  sum_values acc ((k, v) ∷ m) = sum_values (add acc v) m

  unfoldable pub standard_out_of_bounds : Option F → Bool
  standard_out_of_bounds none = false
  standard_out_of_bounds (some std) = lt std (lit 2 1) || gt std (lit 5 1)

  unfoldable pub int_fields : TuningConstants F → List ℤ
  int_fields t =
      t.max_d_age_bars ∷ t.default_ttl_bars ∷ t.atr_window ∷ t.atr_long_window ∷ t.rsi_window
      ∷ t.volume_ma_window ∷ t.swing_lookback ∷ t.stability_window ∷ t.min_candles
      ∷ t.min_daily_bars ∷ t.quant_trap_lookback ∷ t.volume_authenticity_window
      ∷ t.quant_regime_window ∷ t.per_bar_sharpe_window ∷ t.authenticity_halve ∷ t.authenticity_veto
      ∷ t.regime_moderate ∷ t.regime_high ∷ t.a_grade_min ∷ t.a_grade_min_high_quant ∷ []

  unfoldable pub hard_checks : TuningConstants F → List (Bool × TuningError)
  unfolding lacks_key lacks_member sum_ℤ sum_values standard_out_of_bounds
  hard_checks t =
      (not (lt t.fib_tp1 t.fib_tp2 && lt t.fib_tp2 t.fib_tp3), fib_order)
      ∷ (not (is_hundred (sum_ℤ t.tp_close_pcts)), tp_close_sum)
      ∷ (not (ltb_ℤ t.authenticity_veto t.authenticity_halve), authenticity_order)
      ∷ (not (ltb_ℤ t.regime_moderate t.regime_high), regime_order)
      ∷ (gt (abs (sub (sum_values nought t.confluence_weights) (lit 100 0))) (lit 1 6), weight_sum)
      ∷ (lacks_key required_confluence_keys t.confluence_weights, weight_keys)
      ∷ (lacks_member required_extended_families t.extended_patterns, extended_families)
      ∷ (lacks_key required_stop_loss_levels t.atr_stop_buffer, stop_levels)
      ∷ (standard_out_of_bounds (lookup "standard" t.atr_stop_buffer), standard_buffer)
      ∷ (lacks_key required_htf_keys t.htf_rule, htf_intervals)
      ∷ (lacks_key required_pattern_families t.pattern_base_score, pattern_families)
      ∷ []

  unfoldable pub soft_checks : TuningConstants F → List (Bool × TuningError)
  soft_checks t =
      let inverse_max = max t.mult_trending_inverse t.mult_ranging_inverse in
      let inverse_min = min t.mult_trending_inverse t.mult_ranging_inverse in
      (lt t.mult_extreme_inverse inverse_max, extreme_below_inverse)
      ∷ (lt t.mult_trending_aligned inverse_min, aligned_below_inverse "mult_trending_aligned")
      ∷ (lt t.mult_ranging_aligned inverse_min, aligned_below_inverse "mult_ranging_aligned")
      ∷ (not (le (lit 5 1) t.mult_data_short && le t.mult_data_short (lit 1 0)), data_short_range)
      ∷ (gt t.mult_extreme_inverse (lit 15 1), extreme_ceiling)
      ∷ []

  unfoldable pub window_checks : TuningConstants F → List (Bool × TuningError)
  unfolding int_fields
  window_checks t =
      map (λ v. (leb_ℤ v (pos 0), not_positive)) (int_fields t)
      ++ (ltb_ℤ t.atr_long_window t.atr_window, atr_windows) ∷ []

  -- `none` if the constants are accepted
  unfoldable pub post_init : TuningConstants F → Option TuningError
  unfolding hard_checks soft_checks window_checks
  post_init t = first_error (hard_checks t ++ (soft_checks t ++ window_checks t))

  -- `TuningConstants()`, the module's TUNING
  abbrev pub tuning : TuningConstants F
  tuning = record {
    fib_tp1 = lit 382 3;
    fib_tp2 = lit 618 3;
    fib_tp3 = lit 1272 3;
    extended_patterns = required_extended_families;
    htf_rule = ("15m", "1h") ∷ ("1h", "4h") ∷ ("4h", "1D") ∷ ("1d", "1W") ∷ ("1w", "1ME") ∷ [];
    atr_stop_buffer =
        ("conservative", lit 1 0) ∷ ("standard", lit 3 1) ∷ ("aggressive", lit 25 2) ∷ [];
    atr_prz_sweep = lit 3 1;
    tp_close_pcts = pos 50 ∷ pos 30 ∷ pos 20 ∷ [];
    fee_rate = lit 1 3;
    slippage_rate = lit 5 4;
    max_d_age_bars = pos 20;
    max_prz_distance_atr = lit 3 0;
    max_forming_prz_width_atr = lit 1 0;
    authenticity_halve = pos 40;
    authenticity_veto = pos 25;
    adverse_sharpe_threshold = lit 1 0;
    regime_moderate = pos 35;
    regime_high = pos 60;
    target_atr_pct = lit 25 1;
    default_ttl_bars = pos 40;
    funding_confluence_default = pos 5;
    confluence_weights =
        ("price_action", lit 25 0)
        ∷ ("htf_trend", lit 25 0)
        ∷ ("rsi", lit 15 0)
        ∷ ("structure", lit 15 0)
        ∷ ("macd", lit 10 0)
        ∷ ("funding", lit 10 0)
        ∷ [];
    a_grade_min = pos 70;
    a_grade_min_high_quant = pos 85;
    high_quant_position_mult = lit 6 1;
    pattern_base_score =
        ("gartley", lit 5 0)
        ∷ ("bat", lit 2 0)
        ∷ ("butterfly", nought)
        ∷ ("crab", neg (lit 3 0))
        ∷ ("deep crab", neg (lit 5 0))
        ∷ ("shark", neg (lit 8 0))
        ∷ [];
    stability_window = pos 5;
    min_candles = pos 60;
    atr_window = pos 14;
    atr_long_window = pos 100;
    rsi_window = pos 14;
    volume_ma_window = pos 20;
    swing_lookback = pos 60;
    quant_trap_lookback = pos 60;
    volume_authenticity_window = pos 60;
    quant_regime_window = pos 100;
    per_bar_sharpe_window = pos 20;
    slope_trend_up = lit 5 1;
    slope_trend_down = neg (lit 5 1);
    mult_trending_aligned = lit 1 0;
    mult_ranging_aligned = lit 1 0;
    mult_trending_inverse = lit 6 1;
    mult_ranging_inverse = lit 5 1;
    mult_extreme_inverse = lit 12 1;
    mult_data_short = lit 8 1;
    extreme_deviation_pct = lit 20 0;
    min_daily_bars = pos 210;
  }
