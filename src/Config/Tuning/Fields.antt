-- ===== src/Config/Tuning/Fields.antt =====
-- `to_dict`, `from_dict`, and `dataclasses.replace` on the constants, app/config/tuning.py.
use Prim.Native.Nat.{Ordering}
use Prim.Native.String.{compare}
use pyharmonics_gpt.Prelude.{
  Bool, true, false, Option, none, some, List, [], ◌∷◌, map, String, ℤ, if◌then◌else◌,
}
use pyharmonics_gpt.Float.{Float}
use pyharmonics_gpt.Dict.{Dict, lookup}
use pyharmonics_gpt.Config.Tuning.{TuningConstants, TuningError, post_init, tuning}

-- The values of the fields: a frozenset has its `members`, a tuple its `ints`; in a plain dict they
-- are lists, `member_list` and `int_list`.
pub data Value (F : Type 0) : Type 0 where
  float : F → Value F
  int : ℤ → Value F
  members member_list : List String → Value F
  ints int_list : List ℤ → Value F
  texts : Dict String → Value F
  floats : Dict F → Value F

-- A result, an error of `__post_init__`, or a value of another type than the field's, which Python
-- would keep: the model ends there.
pub data Built (A : Type 0) : Type 0 where
  built : A → Built A
  refused : TuningError → Built A
  ill_typed : String → Built A

infixl 5 ◌>>=◌
abbrev pub ◌>>=◌ : {A B : Type 0} → Built A → (A → Built B) → Built B
built a >>= f = f a
refused e >>= f = refused e
ill_typed name >>= f = ill_typed name

abbrev pub verdict : {A : Type 0} → A → Option TuningError → Built A
verdict x none = built x
verdict x (some e) = refused e

-- `x < y` on texts
abbrev pub str_lt : String → String → Bool
str_lt x y = elim (compare x y) [ Ordering.lt ↦ true | Ordering.eq ↦ false | Ordering.gt ↦ false ]

-- `sorted` on the members of a set of texts, by insertion
unfoldable pub insert_text : String → List String → List String
insert_text x [] = x ∷ []
insert_text x (y ∷ ys) = let rest = insert_text x ys in if str_lt y x then y ∷ rest else x ∷ y ∷ ys

unfoldable pub sorted : List String → List String
unfolding insert_text
sorted [] = []
sorted (x ∷ xs) = insert_text x (sorted xs)

module _ {F : Type 0} where
  abbrev pub as_float : Value F → Option F
  as_float (float x) = some x
  as_float v = none

  abbrev pub as_int : Value F → Option ℤ
  as_int (int x) = some x
  as_int v = none

  abbrev pub as_members : Value F → Option (List String)
  as_members (members xs) = some xs
  as_members v = none

  abbrev pub as_ints : Value F → Option (List ℤ)
  as_ints (ints xs) = some xs
  as_ints v = none

  abbrev pub as_texts : Value F → Option (Dict String)
  as_texts (texts m) = some m
  as_texts v = none

  abbrev pub as_floats : Value F → Option (Dict F)
  as_floats (floats m) = some m
  as_floats v = none

  -- the value of a field: the override, or the old one
  unfoldable pub read : {A : Type 0} → String → (Value F → Option A) → A → Dict (Value F) → Built A
  read name typed old d = elim (lookup name d) [
    | none ↦ built old
    | some v ↦ elim (typed v) [ none ↦ ill_typed name | some x ↦ built x ]
  ]

  -- `[(f.name, getattr(t, f.name)) for f in fields(t)]`
  unfoldable pub fields : TuningConstants F → Dict (Value F)
  fields t =
      ("fib_tp1", float t.fib_tp1)
      ∷ ("fib_tp2", float t.fib_tp2)
      ∷ ("fib_tp3", float t.fib_tp3)
      ∷ ("extended_patterns", members t.extended_patterns)
      ∷ ("htf_rule", texts t.htf_rule)
      ∷ ("atr_stop_buffer", floats t.atr_stop_buffer)
      ∷ ("atr_prz_sweep", float t.atr_prz_sweep)
      ∷ ("tp_close_pcts", ints t.tp_close_pcts)
      ∷ ("fee_rate", float t.fee_rate)
      ∷ ("slippage_rate", float t.slippage_rate)
      ∷ ("max_d_age_bars", int t.max_d_age_bars)
      ∷ ("max_prz_distance_atr", float t.max_prz_distance_atr)
      ∷ ("max_forming_prz_width_atr", float t.max_forming_prz_width_atr)
      ∷ ("authenticity_halve", int t.authenticity_halve)
      ∷ ("authenticity_veto", int t.authenticity_veto)
      ∷ ("adverse_sharpe_threshold", float t.adverse_sharpe_threshold)
      ∷ ("regime_moderate", int t.regime_moderate)
      ∷ ("regime_high", int t.regime_high)
      ∷ ("target_atr_pct", float t.target_atr_pct)
      ∷ ("default_ttl_bars", int t.default_ttl_bars)
      ∷ ("funding_confluence_default", int t.funding_confluence_default)
      ∷ ("confluence_weights", floats t.confluence_weights)
      ∷ ("a_grade_min", int t.a_grade_min)
      ∷ ("a_grade_min_high_quant", int t.a_grade_min_high_quant)
      ∷ ("high_quant_position_mult", float t.high_quant_position_mult)
      ∷ ("pattern_base_score", floats t.pattern_base_score)
      ∷ ("stability_window", int t.stability_window)
      ∷ ("min_candles", int t.min_candles)
      ∷ ("atr_window", int t.atr_window)
      ∷ ("atr_long_window", int t.atr_long_window)
      ∷ ("rsi_window", int t.rsi_window)
      ∷ ("volume_ma_window", int t.volume_ma_window)
      ∷ ("swing_lookback", int t.swing_lookback)
      ∷ ("quant_trap_lookback", int t.quant_trap_lookback)
      ∷ ("volume_authenticity_window", int t.volume_authenticity_window)
      ∷ ("quant_regime_window", int t.quant_regime_window)
      ∷ ("per_bar_sharpe_window", int t.per_bar_sharpe_window)
      ∷ ("slope_trend_up", float t.slope_trend_up)
      ∷ ("slope_trend_down", float t.slope_trend_down)
      ∷ ("mult_trending_aligned", float t.mult_trending_aligned)
      ∷ ("mult_ranging_aligned", float t.mult_ranging_aligned)
      ∷ ("mult_trending_inverse", float t.mult_trending_inverse)
      ∷ ("mult_ranging_inverse", float t.mult_ranging_inverse)
      ∷ ("mult_extreme_inverse", float t.mult_extreme_inverse)
      ∷ ("mult_data_short", float t.mult_data_short)
      ∷ ("extreme_deviation_pct", float t.extreme_deviation_pct)
      ∷ ("min_daily_bars", int t.min_daily_bars)
      ∷ []

  unfoldable pub plain : Value F → Value F
  unfolding sorted
  plain (members xs) = member_list (sorted xs)
  plain v = v

  unfoldable pub to_dict : TuningConstants F → Dict (Value F)
  unfolding fields plain
  to_dict t = map (λ f. (f.0, plain (f.1))) (fields t)

  -- a list for a field whose default is a frozenset or a tuple becomes one
  unfoldable pub coerce : Value F → Value F → Value F
  coerce (members old) (member_list xs) = members xs
  coerce (ints old) (int_list xs) = ints xs
  coerce old v = v

  -- the overrides of the fields that the dict has
  unfoldable pub overrides : Dict (Value F) → Dict (Value F) → Dict (Value F)
  unfolding coerce
  overrides [] d = []
  overrides ((name, existing) ∷ defaults) d =
      let rest = overrides defaults d in
      elim (lookup name d) [ none ↦ rest | some v ↦ (name, coerce existing v) ∷ rest ]

  -- the new instance, before its `__post_init__`
  unfoldable pub overlay : TuningConstants F → Dict (Value F) → Built (TuningConstants F)
  unfolding read
  overlay t d = do
    fib_tp1 ← read "fib_tp1" as_float t.fib_tp1 d
    fib_tp2 ← read "fib_tp2" as_float t.fib_tp2 d
    fib_tp3 ← read "fib_tp3" as_float t.fib_tp3 d
    extended_patterns ← read "extended_patterns" as_members t.extended_patterns d
    htf_rule ← read "htf_rule" as_texts t.htf_rule d
    atr_stop_buffer ← read "atr_stop_buffer" as_floats t.atr_stop_buffer d
    atr_prz_sweep ← read "atr_prz_sweep" as_float t.atr_prz_sweep d
    tp_close_pcts ← read "tp_close_pcts" as_ints t.tp_close_pcts d
    fee_rate ← read "fee_rate" as_float t.fee_rate d
    slippage_rate ← read "slippage_rate" as_float t.slippage_rate d
    max_d_age_bars ← read "max_d_age_bars" as_int t.max_d_age_bars d
    max_prz_distance_atr ← read "max_prz_distance_atr" as_float t.max_prz_distance_atr d
    max_forming_prz_width_atr ←
        read "max_forming_prz_width_atr" as_float t.max_forming_prz_width_atr d
    authenticity_halve ← read "authenticity_halve" as_int t.authenticity_halve d
    authenticity_veto ← read "authenticity_veto" as_int t.authenticity_veto d
    adverse_sharpe_threshold ← read "adverse_sharpe_threshold" as_float t.adverse_sharpe_threshold d
    regime_moderate ← read "regime_moderate" as_int t.regime_moderate d
    regime_high ← read "regime_high" as_int t.regime_high d
    target_atr_pct ← read "target_atr_pct" as_float t.target_atr_pct d
    default_ttl_bars ← read "default_ttl_bars" as_int t.default_ttl_bars d
    funding_confluence_default ←
        read "funding_confluence_default" as_int t.funding_confluence_default d
    confluence_weights ← read "confluence_weights" as_floats t.confluence_weights d
    a_grade_min ← read "a_grade_min" as_int t.a_grade_min d
    a_grade_min_high_quant ← read "a_grade_min_high_quant" as_int t.a_grade_min_high_quant d
    high_quant_position_mult ← read "high_quant_position_mult" as_float t.high_quant_position_mult d
    pattern_base_score ← read "pattern_base_score" as_floats t.pattern_base_score d
    stability_window ← read "stability_window" as_int t.stability_window d
    min_candles ← read "min_candles" as_int t.min_candles d
    atr_window ← read "atr_window" as_int t.atr_window d
    atr_long_window ← read "atr_long_window" as_int t.atr_long_window d
    rsi_window ← read "rsi_window" as_int t.rsi_window d
    volume_ma_window ← read "volume_ma_window" as_int t.volume_ma_window d
    swing_lookback ← read "swing_lookback" as_int t.swing_lookback d
    quant_trap_lookback ← read "quant_trap_lookback" as_int t.quant_trap_lookback d
    volume_authenticity_window ←
        read "volume_authenticity_window" as_int t.volume_authenticity_window d
    quant_regime_window ← read "quant_regime_window" as_int t.quant_regime_window d
    per_bar_sharpe_window ← read "per_bar_sharpe_window" as_int t.per_bar_sharpe_window d
    slope_trend_up ← read "slope_trend_up" as_float t.slope_trend_up d
    slope_trend_down ← read "slope_trend_down" as_float t.slope_trend_down d
    mult_trending_aligned ← read "mult_trending_aligned" as_float t.mult_trending_aligned d
    mult_ranging_aligned ← read "mult_ranging_aligned" as_float t.mult_ranging_aligned d
    mult_trending_inverse ← read "mult_trending_inverse" as_float t.mult_trending_inverse d
    mult_ranging_inverse ← read "mult_ranging_inverse" as_float t.mult_ranging_inverse d
    mult_extreme_inverse ← read "mult_extreme_inverse" as_float t.mult_extreme_inverse d
    mult_data_short ← read "mult_data_short" as_float t.mult_data_short d
    extreme_deviation_pct ← read "extreme_deviation_pct" as_float t.extreme_deviation_pct d
    min_daily_bars ← read "min_daily_bars" as_int t.min_daily_bars d
    built (record {
      fib_tp1 = fib_tp1;
      fib_tp2 = fib_tp2;
      fib_tp3 = fib_tp3;
      extended_patterns = extended_patterns;
      htf_rule = htf_rule;
      atr_stop_buffer = atr_stop_buffer;
      atr_prz_sweep = atr_prz_sweep;
      tp_close_pcts = tp_close_pcts;
      fee_rate = fee_rate;
      slippage_rate = slippage_rate;
      max_d_age_bars = max_d_age_bars;
      max_prz_distance_atr = max_prz_distance_atr;
      max_forming_prz_width_atr = max_forming_prz_width_atr;
      authenticity_halve = authenticity_halve;
      authenticity_veto = authenticity_veto;
      adverse_sharpe_threshold = adverse_sharpe_threshold;
      regime_moderate = regime_moderate;
      regime_high = regime_high;
      target_atr_pct = target_atr_pct;
      default_ttl_bars = default_ttl_bars;
      funding_confluence_default = funding_confluence_default;
      confluence_weights = confluence_weights;
      a_grade_min = a_grade_min;
      a_grade_min_high_quant = a_grade_min_high_quant;
      high_quant_position_mult = high_quant_position_mult;
      pattern_base_score = pattern_base_score;
      stability_window = stability_window;
      min_candles = min_candles;
      atr_window = atr_window;
      atr_long_window = atr_long_window;
      rsi_window = rsi_window;
      volume_ma_window = volume_ma_window;
      swing_lookback = swing_lookback;
      quant_trap_lookback = quant_trap_lookback;
      volume_authenticity_window = volume_authenticity_window;
      quant_regime_window = quant_regime_window;
      per_bar_sharpe_window = per_bar_sharpe_window;
      slope_trend_up = slope_trend_up;
      slope_trend_down = slope_trend_down;
      mult_trending_aligned = mult_trending_aligned;
      mult_ranging_aligned = mult_ranging_aligned;
      mult_trending_inverse = mult_trending_inverse;
      mult_ranging_inverse = mult_ranging_inverse;
      mult_extreme_inverse = mult_extreme_inverse;
      mult_data_short = mult_data_short;
      extreme_deviation_pct = extreme_deviation_pct;
      min_daily_bars = min_daily_bars;
    })

module _ {F : Type 0} ⦃d : Float F⦄ where
  -- the instance after its `__post_init__`
  unfoldable pub checked : TuningConstants F → Built (TuningConstants F)
  checked t = verdict t (post_init t)

  -- `dataclasses.replace(t, **overrides)`
  unfoldable pub replace : TuningConstants F → Dict (Value F) → Built (TuningConstants F)
  unfolding overlay checked
  replace t fields = overlay t fields >>= checked

  unfoldable pub from_dict : Dict (Value F) → Built (TuningConstants F)
  unfolding fields overrides replace
  from_dict m = replace tuning (overrides (fields tuning) m)
