-- ===== src/Domain/RsiBacktest/Tests.antt =====
-- A backtest over a few bars, in thousandths.
use pyharmonics_gpt.Prelude.{
  ℕ, zero, suc, ◌≡◌, refl, true, false, Option, none, some, List, [], ◌∷◌, String, length, ℤ, pos,
  negsuc, ◌+ℤ◌, map, arith, ◌*◌,
}
use pyharmonics_gpt.Float.Fixed.{milli_float, milli_add, milli_sub, milli_mul, milli_div}
use pyharmonics_gpt.Domain.RsiTrend.{
  Row, StrategySignal, Options, detect_signals, drop, warmup_bars, scan, signal_at, rsi_zone_bounds,
  long_signal, long_entry, signal_quality,
}
use pyharmonics_gpt.Domain.RsiTrend.Detection.{Ascends, All, Kept, passes, detect_signals-Kept}
use pyharmonics_gpt.Domain.RsiBacktest.{
  StrategyTrade, BacktestResult, run_backtest, run_signals, run_bars, run_later, signal_bar,
  later_bar, after_target, take_first_target, reduce, rsi_step, trail_step, trailed_stop, close_at,
  r_multiple_of, opened, trade_of, simulate_one, summarise, drawdown, profit_factor_of,
}
use pyharmonics_gpt.Domain.RsiBacktest.Exits.{simple, FirstExit, Records, simulate_one-FirstExit}
use pyharmonics_gpt.Domain.RsiBacktest.Schedule.{Schedule}
use pyharmonics_gpt.Domain.RsiBacktest.Metrics.{backtest_of_detected}

-- a bar of whole prices over an EMA200 of 95
abbrev bar : ℕ → ℕ → ℕ → Row ℤ
bar high low close = record {
  open_price = pos (100 * 1000);
  high = pos (high * 1000);
  low = pos (low * 1000);
  close = pos (close * 1000);
  ema200 = pos (95 * 1000);
  ema50 = pos (98 * 1000);
  rsi = pos (50 * 1000);
  atr = pos (2 * 1000);
  time = "t";
}

-- a long at 100 with the stop at 98 and the target at 104
abbrev long_at : ℕ → StrategySignal ℤ
long_at i = record {
  direction = "long";
  entry_price = pos (100 * 1000);
  stop_loss = pos (98 * 1000);
  target_price = pos (104 * 1000);
  atr = pos (2 * 1000);
  rsi = pos (31 * 1000);
  time = "t";
  index = i;
  quality_score = pos (60 * 1000);
}

abbrev rising : List (Row ℤ)
rising = bar 101 99 100 ∷ bar 103 99 102 ∷ bar 105 101 104 ∷ bar 105 97 99 ∷ bar 100 96 98 ∷ []

abbrev held_and_reason : StrategyTrade ℤ → ℤ × String × ℤ
held_and_reason t = (t.bars_held, t.exit_reason, t.r_multiple)

abbrev outcomes : Option (List (StrategyTrade ℤ)) → List (ℤ × String × ℤ)
outcomes none = []
outcomes (some trades) = map held_and_reason trades

-- the second signal falls into the first trade, and the third is stopped on its own bar
two_trades :
    outcomes (run_signals (simple false) rising (negsuc 0) (long_at 0 ∷ long_at 1 ∷ long_at 3 ∷ []))
    ≡ (pos 2, "target", pos 2000) ∷ (pos 0, "stop_loss", negsuc 999) ∷ []
unfolding run_signals simulate_one run_bars run_later signal_bar later_bar after_target rsi_step
    trail_step close_at r_multiple_of opened trade_of milli_add milli_sub milli_mul milli_div ◌+ℤ◌
two_trades = refl

-- half is taken at the target, and the rest at breakeven
scaled_out :
    outcomes (
      run_signals
        (record { partial_mode = true; trailing_stop = false })
        rising
        (negsuc 0)
        (long_at 0 ∷ []))
    ≡ (pos 3, "stop_loss", pos 1000) ∷ []
unfolding run_signals simulate_one run_bars run_later signal_bar later_bar after_target
    take_first_target reduce rsi_step trail_step trailed_stop close_at r_multiple_of opened trade_of
    milli_add milli_sub milli_mul milli_div ◌+ℤ◌
scaled_out = refl

simulate_one-FirstExit_example :
    (r : Option (String × ℤ × ℕ × String)) × (t : StrategyTrade ℤ) × (simulate_one
        (simple false)
        rising
        (long_at 0)
      ≡ some t)
    × FirstExit (long_at 0) 0 (drop 0 rising) r
    × Records rising (long_at 0) r t
simulate_one-FirstExit_example = simulate_one-FirstExit false rising (long_at 0) refl (omega arith)

abbrev one_trade : BacktestResult ℤ
unfolding run_backtest run_signals simulate_one run_bars run_later signal_bar later_bar after_target
    rsi_step trail_step close_at r_multiple_of opened trade_of milli_add milli_sub milli_mul
    milli_div ◌+ℤ◌ summarise drawdown profit_factor_of
one_trade = elim (run_backtest (simple false) rising (long_at 0 ∷ [])) [
  | none ↦ summarise 0 []
  | some result ↦ result
]

-- 201 bars, of which the last has an RSI that leaves the oversold zone
abbrev repeated : ℕ → Row ℤ → List (Row ℤ) → List (Row ℤ)
repeated zero row rows = rows
repeated (suc n) row rows = row ∷ repeated n row rows

abbrev with_rsi : ℕ → Row ℤ → Row ℤ
with_rsi n row = record {
  open_price = row.open_price;
  high = row.high;
  low = row.low;
  close = row.close;
  ema200 = row.ema200;
  ema50 = row.ema50;
  rsi = pos (n * 1000);
  atr = row.atr;
  time = row.time;
}

abbrev oversold : List (Row ℤ)
oversold = repeated 200 (with_rsi 25 (bar 101 99 100)) (with_rsi 31 (bar 101 99 101) ∷ rising)

abbrev extreme : Options ℤ
extreme = record {
  use_ema50 = false;
  require_candle_color = false;
  atr_mult = pos 1000;
  rsi_zone = "extreme";
  reward_risk = pos 2000;
  min_quality_score = pos 0;
}

the_cross_is_found : length (detect_signals extreme oversold) ≡ 1
unfolding detect_signals scan signal_at rsi_zone_bounds long_signal long_entry signal_quality
    milli_add milli_sub milli_mul milli_div
the_cross_is_found = refl

detect_signals-Kept_example :
    Ascends warmup_bars (length oversold) (detect_signals extreme oversold)
    × All (Kept oversold (passes extreme)) (detect_signals extreme oversold)
detect_signals-Kept_example = detect_signals-Kept extreme oversold

backtest_of_detected_example :
    let signals = detect_signals extreme oversold in
    (result : BacktestResult ℤ) × (run_backtest (simple true) oversold signals ≡ some result)
    × Schedule (simple true) oversold 0 signals result.trades
    × (result.trades_count ≡ length result.trades)
    × (result.total_signals ≡ length signals)
backtest_of_detected_example = backtest_of_detected (simple true) extreme oversold
