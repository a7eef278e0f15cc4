-- ===== src/Services/SignalEngine/Tests/Samples.antt =====
-- The data of the tests: a long at its zone, with the higher timeframe, in thousandths.
use pyharmonics_gpt.Prelude.{
  ℕ, true, Option, none, some, List, [], ◌∷◌, String, str_eq, ℤ, pos, negsuc, quot_ℤ,
}
use pyharmonics_gpt.Float.Fixed.{milli_float}
use pyharmonics_gpt.Domain.Signals.{Candidate, Tuning}
use pyharmonics_gpt.Domain.Validation.Frames.{Bar}
use pyharmonics_gpt.Services.SignalEngine.Confluence.{Divergence, Weights}
use pyharmonics_gpt.Services.SignalEngine.Context.{Settings, ScoreContext, Signal}
use pyharmonics_gpt.Services.SignalEngine.Ranking.{Frame, EngineSettings}

abbrev pub as_is : ℤ → ℤ
as_is x = x

abbrev pub whole : ℤ → ℤ
whole x = quot_ℤ x (pos 1000)

abbrev pub first_value : List ℤ → ℤ
first_value [] = pos 0
first_value (x ∷ xs) = x

abbrev pub constants : Tuning ℤ
constants = record {
  fib_tp1 = pos 382;
  fib_tp2 = pos 618;
  fib_tp3 = pos 1272;
  conservative_buffer = pos 1000;
  standard_buffer = pos 300;
  aggressive_buffer = pos 250;
  is_extended = λ name. str_eq name "crab";
  fee_rate = pos 1;
  slippage_rate = pos 0;
  max_prz_distance_atr = pos 3000;
  max_d_age_bars = 20;
  max_forming_prz_width_atr = pos 1000;
  default_ttl_bars = 40;
}

abbrev pub weights : Weights ℤ
weights = record {
  confluence_weights =
      ("price_action", pos 25_000)
      ∷ ("htf_trend", pos 25_000)
      ∷ ("rsi", pos 15_000)
      ∷ ("structure", pos 15_000)
      ∷ ("macd", pos 10_000)
      ∷ ("funding", pos 10_000)
      ∷ [];
  volume_ma_window = 20;
  swing_lookback = 60;
  atr_prz_sweep = pos 300;
}

abbrev pub settings : Settings ℤ
settings = record {
  tuning = constants;
  weights = weights;
  authenticity_halve = 40;
  authenticity_veto = 25;
  adverse_sharpe_threshold = pos 1000;
  quant_trap_lookback = 60;
  pattern_base_score = ("gartley", pos 5000) ∷ [];
  stability_window = 1;
  round8 = as_is;
  round4 = as_is;
  round_int = whole;
  truncate = whole;
  mean = first_value;
  lower = λ name. name;
  starts_with = λ name family. str_eq name family;
}

abbrev pub bar : Bar ℤ
bar = record {
  open_price = pos 99_900;
  high = pos 100_400;
  low = pos 99_600;
  close = pos 100_000;
  volume = pos 1000;
}

abbrev pub gartley : Candidate ℤ
gartley = record {
  family = "XABCD";
  name = "gartley";
  bullish = true;
  formed = true;
  points = pos 98_900 ∷ pos 112_000 ∷ pos 104_000 ∷ pos 108_000 ∷ pos 100_000 ∷ [];
  completion_min = pos 99_000;
  completion_max = pos 100_500;
  times = [];
  indices = [];
}

abbrev pub frame : Frame ℤ
frame = record {
  rows = bar ∷ bar ∷ [];
  last = bar;
  close_times = none;
  atr = pos 1000;
  rsi = pos 28_000;
  trend = "bullish";
  sharpe = pos 0;
  price = pos 100_000;
  rsi_recent = some (pos 25_000, pos 28_000);
  macd_line = negsuc 99;
  macd_histogram = pos 20;
  macd_histogram_prev = pos 10;
}

abbrev pub engine : EngineSettings ℤ
engine = record {
  scoring = settings;
  numpy = record { mean = first_value; total = first_value; std = first_value };
  volume_authenticity_window = 60;
  quant_regime_window = 100;
  regime_moderate = pos 35;
  regime_high = pos 60;
  a_grade_min = 70;
  a_grade_min_high_quant = 85;
  high_quant_position_mult = pos 600;
  target_atr_pct = pos 2500;
  min_candles = 2;
}

abbrev pub regular : List Divergence
regular = record { name = "Regular"; bullish = true } ∷ []

abbrev pub redetect : List (Bar ℤ) → Option (Option String)
redetect rows = some (some "gartley")

abbrev pub long_signal : Option ℕ → Signal ℤ
long_signal stability_score = record {
  status = "in_prz";
  grade = "A";
  direction = "long";
  pattern_name = "gartley";
  family = "XABCD";
  formed = true;
  entry_zone = (pos 99_000, pos 100_500);
  entry_reference = pos 100_000;
  stop_loss = pos 98_600;
  invalidation_point = pos 98_900;
  stop_level = "standard";
  targets = (pos 104_584, pos 107_416, pos 115_264);
  net_rr_tp1 = pos 2740;
  net_rr_tp2 = pos 4510;
  confluence_score = pos 96;
  confluence =
      ("price_action", pos 0)
      ∷ ("htf_trend", pos 25_000)
      ∷ ("rsi", pos 15_000)
      ∷ ("structure", pos 15_000)
      ∷ ("macd", pos 10_000)
      ∷ ("macd_zero", pos 8000)
      ∷ ("dual_confirm", pos 8000)
      ∷ ("histogram", pos 5000)
      ∷ ("funding", pos 5000)
      ∷ [];
  htf_trend = "bullish";
  sharpe = pos 0;
  regime = "normal";
  position_multiplier = pos 1500;
  trap_score = 50;
  tradable = true;
  width_pct = pos 15;
  stability_score = stability_score;
}

abbrev pub context : ScoreContext ℤ
context = record {
  rows = bar ∷ bar ∷ [];
  readings = record {
    atr = pos 1000;
    rsi = pos 28_000;
    trend = "bullish";
    pa_scale = pos 1000;
    rsi_recent = some (pos 25_000, pos 28_000);
    macd_line = negsuc 99;
    macd_histogram = pos 20;
    macd_histogram_prev = pos 10;
  };
  sharpe = pos 0;
  regime = "normal";
  a_min = 70;
  position_mult = pos 1500;
  price = pos 100_000;
  last = bar;
  rsi_divs = regular;
  macd_divs = regular;
  volume_authenticity = 50;
  stop_buffer_atr = none;
}
