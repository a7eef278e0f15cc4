-- ===== src/Domain/RsiTrend.antt =====
-- The entry signals of the trend-RSI strategy, app/domain/rsi_trend.py. The indicator columns that
-- `enrich` computes with pandas are fields of the rows.
pub mod Detection
use pyharmonics_gpt.Prelude.{
  ℕ, zero, suc, ◌+◌, Bool, true, false, not, ◌&&◌, ◌||◌, Option, none, some, List, [], ◌∷◌, String,
  str_eq, leb, length, filter, if◌then◌else◌,
}
use pyharmonics_gpt.Float.{Float, lt, le, gt, ge, add, sub, mul, div, lit, nought, abs, max, min}

pub record Row (F : Type 0) : Type 0 where
  pub open_price : F
  pub high : F
  pub low : F
  pub close : F
  pub ema200 : F
  pub ema50 : F
  pub rsi : F
  pub atr : F
  pub time : String

pub record StrategySignal (F : Type 0) : Type 0 where
  pub direction : String
  pub entry_price : F
  pub stop_loss : F
  pub target_price : F
  pub atr : F
  pub rsi : F
  pub time : String
  pub index : ℕ
  pub quality_score : F

pub record Options (F : Type 0) : Type 0 where
  pub use_ema50 : Bool
  pub require_candle_color : Bool
  pub atr_mult : F
  pub rsi_zone : String
  pub reward_risk : F
  pub min_quality_score : F

abbrev pub warmup_bars : ℕ
warmup_bars = 200

-- `data.iloc[n:]`
abbrev pub drop {ℓ} : {A : Type ℓ} → ℕ → List A → List A
drop zero xs = xs
drop (suc n) [] = []
drop (suc n) (x ∷ xs) = drop n xs

abbrev pub collect {ℓ} : {A : Type ℓ} → Option A → List A → List A
collect none xs = xs
collect (some x) xs = x ∷ xs

module _ {F : Type 0} ⦃d : Float F⦄ where
  -- `pd.isna(x)`
  abbrev pub isna : F → Bool
  isna x = not (le x x)

  -- `RSI_ZONES.get(rsi_zone, RSI_ZONES["extreme"])`
  unfoldable pub rsi_zone_bounds : String → F × F
  rsi_zone_bounds zone =
      if str_eq zone "pullback" then (lit 40 0, lit 60 0) else (lit 30 0, lit 70 0)

  unfoldable pub signal_quality : String → F → F → F → F → F → F → F → F
  signal_quality direction close ema200 ema50 rsi rsi_prev atr open_price =
      let long = str_eq direction "long" in
      let displacement = div (abs (sub close ema200)) atr in
      let trend_score = mul (div (min displacement (lit 10 0)) (lit 10 0)) (lit 40 0) in
      let ema50_aligned = if long then gt close ema50 else lt close ema50 in
      let ema50_score = if ema50_aligned then lit 20 0 else nought in
      let rsi_score = mul (div (min (abs (sub rsi rsi_prev)) (lit 20 0)) (lit 20 0)) (lit 25 0) in
      let color_ok = if long then gt close open_price else lt close open_price in
      let color_score = if color_ok then lit 15 0 else nought in
      if le atr nought || isna atr
      then nought
      else min (add (add (add trend_score ema50_score) rsi_score) color_score) (lit 100 0)

  unfoldable pub long_entry : Options F → F → Row F → ℕ → StrategySignal F
  unfolding signal_quality
  long_entry o rsi_prev row i =
      let stop = sub row.low (mul o.atr_mult row.atr) in
      let risk = sub row.close stop in
      record {
        direction = "long";
        entry_price = row.close;
        stop_loss = stop;
        target_price = add row.close (mul o.reward_risk risk);
        atr = row.atr;
        rsi = row.rsi;
        time = row.time;
        index = i;
        quality_score =
            signal_quality "long" row.close row.ema200 row.ema50 row.rsi rsi_prev row.atr
              row.open_price;
      }

  unfoldable pub long_signal : Options F → F → Row F → ℕ → Option (StrategySignal F)
  unfolding long_entry
  long_signal o rsi_prev row i =
      let stop = sub row.low (mul o.atr_mult row.atr) in
      let risk = sub row.close stop in
      if o.use_ema50 && not (gt row.close row.ema50)
      then none
      else if o.require_candle_color && not (gt row.close row.open_price)
      then none
      else if le risk nought
      then none
      else some (long_entry o rsi_prev row i)

  unfoldable pub short_entry : Options F → F → Row F → ℕ → StrategySignal F
  unfolding signal_quality
  short_entry o rsi_prev row i =
      let stop = add row.high (mul o.atr_mult row.atr) in
      let risk = sub stop row.close in
      record {
        direction = "short";
        entry_price = row.close;
        stop_loss = stop;
        target_price = sub row.close (mul o.reward_risk risk);
        atr = row.atr;
        rsi = row.rsi;
        time = row.time;
        index = i;
        quality_score =
            signal_quality "short" row.close row.ema200 row.ema50 row.rsi rsi_prev row.atr
              row.open_price;
      }

  unfoldable pub short_signal : Options F → F → Row F → ℕ → Option (StrategySignal F)
  unfolding short_entry
  short_signal o rsi_prev row i =
      let stop = add row.high (mul o.atr_mult row.atr) in
      let risk = sub stop row.close in
      if o.use_ema50 && not (lt row.close row.ema50)
      then none
      else if o.require_candle_color && not (lt row.close row.open_price)
      then none
      else if le risk nought
      then none
      else some (short_entry o rsi_prev row i)

  -- the body of the loop of `detect_signals`
  unfoldable pub signal_at : Options F → F → Row F → ℕ → Option (StrategySignal F)
  unfolding long_signal short_signal rsi_zone_bounds
  signal_at o rsi_prev row i =
      let zone = rsi_zone_bounds o.rsi_zone in
      let crossed_up = le rsi_prev (zone.0) && lt (zone.0) row.rsi in
      let crossed_down = ge rsi_prev (zone.1) && gt (zone.1) row.rsi in
      if isna row.rsi || isna rsi_prev || isna row.atr
      then none
      else if crossed_up && gt row.close row.ema200
      then long_signal o rsi_prev row i
      else if crossed_down && lt row.close row.ema200
      then short_signal o rsi_prev row i
      else none

  unfoldable pub scan : Options F → F → ℕ → List (Row F) → List (StrategySignal F)
  unfolding signal_at
  scan o rsi_prev i [] = []
  scan o rsi_prev i (row ∷ rows) =
      collect (signal_at o rsi_prev row i) (scan o row.rsi (suc i) rows)

  -- from the last bar of the warm-up
  abbrev scan_from : Options F → List (Row F) → List (StrategySignal F)
  scan_from o [] = []
  scan_from o (row ∷ rows) = scan o row.rsi warmup_bars rows

  unfoldable pub detect_signals : Options F → List (Row F) → List (StrategySignal F)
  unfolding scan
  detect_signals o rows =
      let min_quality = max nought (min o.min_quality_score (lit 100 0)) in
      if leb (length rows) warmup_bars
      then []
      else filter (λ s. ge s.quality_score min_quality) (scan_from o (drop 199 rows))
