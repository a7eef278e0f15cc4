-- ===== src/Domain/RsiBacktest.antt =====
-- The bar-by-bar simulation of the trend-RSI strategy, app/domain/rsi_trend_backtest.py.
mod Bars
pub mod Exits
pub mod Schedule
pub mod Metrics
mod Tests
unfoldable pub use Bars.*
use pyharmonics_gpt.Prelude.{
  ℕ, zero, suc, ◌+◌, Bool, true, false, not, ◌&&◌, ◌||◌, ◌⊎◌, inl, inr, Option, none, some, List,
  [], ◌∷◌, ◌++◌, String, str_eq, leb, length, filter, if◌then◌else◌, ℤ, pos, negsuc, ◌+ℤ◌, leb_ℤ,
  sub_ℕ, map,
}
use pyharmonics_gpt.Float.{Float, lt, le, gt, ge, add, sub, mul, div, lit, nought, abs, max}
use pyharmonics_gpt.Domain.RsiTrend.{Row, StrategySignal, drop, isna}

module _ {F : Type 0} ⦃d : Float F⦄ where
  -- the bars from the k-th after the signal bar, up to the first `break`
  unfoldable pub run_later :
      Mode → StrategySignal F → OpenTrade F → ℕ → List (Row F) → OpenTrade F ⊎ (Exit F × ℕ × String)
  unfolding later_bar
  run_later m s t k [] = inl t
  run_later m s t k (row ∷ rows) = elim (later_bar m s row t) [
    | inl next ↦ run_later m s next (suc k) rows
    | inr e ↦ inr (e, k, row.time)
  ]

  unfoldable pub run_bars :
      Mode → StrategySignal F → OpenTrade F → List (Row F) → OpenTrade F ⊎ (Exit F × ℕ × String)
  unfolding signal_bar run_later
  run_bars m s t [] = inl t
  run_bars m s t (row ∷ rows) = elim (signal_bar s row t) [
    | inl next ↦ run_later m s next 1 rows
    | inr e ↦ inr (e, 0, row.time)
  ]

  -- `data.iloc[-1]`
  abbrev pub last_row : List (Row F) → Option (Row F)
  last_row [] = none
  last_row (row ∷ []) = some row
  last_row (row ∷ next ∷ rows) = last_row (next ∷ rows)

  -- the end of the data: what remains is closed at the last close, and without a bar this raises
  unfoldable pub flatten : List (Row F) → StrategySignal F → OpenTrade F → Option (StrategyTrade F)
  unfolding trade_of r_multiple_of
  flatten frame s t =
      if gt t.remaining nought
      then elim (last_row frame) [
        | none ↦ none
        | some row ↦ some (
            trade_of s row.close row.time "end_of_data"
              (add t.realized_r (mul t.remaining (reward s row.close)))
              (sub_ℕ (length frame) (suc s.index)) t.partials)
      ]
      else some (trade_of s s.entry_price s.time "end_of_data" t.realized_r (pos 0) t.partials)

  -- after a `break` nothing remains to be flattened
  unfoldable pub simulate_one : Mode → List (Row F) → StrategySignal F → Option (StrategyTrade F)
  unfolding run_bars opened trade_of flatten
  simulate_one m frame s = elim (run_bars m s (opened s) (drop s.index frame)) [
    | inl t ↦ flatten frame s t
    | inr (e, k, time) ↦ some (trade_of s e.price time e.reason e.realized_r (pos k) e.partials)
  ]

  -- the loop of `run_backtest`, from the last bar index that an open trade covers
  unfoldable pub run_signals :
      Mode → List (Row F) → ℤ → List (StrategySignal F) → Option (List (StrategyTrade F))
  unfolding simulate_one
  run_signals m frame open_until [] = some []
  run_signals m frame open_until (s ∷ signals) = elim (leb_ℤ (pos s.index) open_until) [
    | true ↦ run_signals m frame open_until signals
    | false ↦ elim (simulate_one m frame s) [
      | none ↦ none
      | some trade ↦ elim (run_signals m frame (pos s.index +ℤ trade.bars_held) signals) [
        | none ↦ none
        | some trades ↦ some (trade ∷ trades)
      ]
    ]
  ]

-- `Optional[float]` with `float("inf")` told apart
pub data ProfitFactor (F : Type 0) : Type 0 where
  undefined infinite : ProfitFactor F
  ratio : F → ProfitFactor F

pub record BacktestResult (F : Type 0) : Type 0 where
  pub total_signals : ℕ
  pub trades_count : ℕ
  pub win_count : ℕ
  pub loss_count : ℕ
  pub scratch_count : ℕ
  pub win_rate : F
  pub avg_r : F
  pub total_r : F
  pub profit_factor : ProfitFactor F
  pub max_drawdown_r : F
  pub avg_bars_held : F
  pub trades : List (StrategyTrade F)

module _ {F : Type 0} ⦃d : Float F⦄ where
  -- `sum(t.r_multiple for t in trades)`
  abbrev pub sum_r : F → List (StrategyTrade F) → F
  sum_r acc [] = acc
  sum_r acc (t ∷ trades) = sum_r (add acc t.r_multiple) trades

  -- the whole number as a float
  abbrev pub of_ℤ : ℤ → F
  of_ℤ (pos n) = lit n 0
  of_ℤ (negsuc n) = sub nought (lit (suc n) 0)

  abbrev pub sum_held : ℤ → List (StrategyTrade F) → ℤ
  sum_held acc [] = acc
  sum_held acc (t ∷ trades) = sum_held (acc +ℤ t.bars_held) trades

  abbrev pub is_win : StrategyTrade F → Bool
  is_win t = gt t.r_multiple nought

  abbrev pub is_loss : StrategyTrade F → Bool
  is_loss t = lt t.r_multiple nought

  abbrev pub is_scratch : StrategyTrade F → Bool
  is_scratch t = le t.r_multiple nought && le nought t.r_multiple

  -- the loop over the cumulative R: its peak, the sum so far, and the deepest drop from a peak
  unfoldable pub drawdown : F → F → F → List (StrategyTrade F) → F
  drawdown peak max_dd cumulative [] = max_dd
  drawdown peak max_dd cumulative (t ∷ trades) =
      let now = add cumulative t.r_multiple in
      drawdown (max peak now) (max max_dd (sub (max peak now) now)) now trades

  unfoldable pub profit_factor_of : F → F → ProfitFactor F
  profit_factor_of gross_win gross_loss =
      if gt gross_loss nought
      then ratio (div gross_win gross_loss)
      else (if le gross_win nought && le nought gross_win then undefined else infinite)

  abbrev pub per_trade : F → ℕ → F
  per_trade total zero = nought
  per_trade total (suc n) = div total (lit (suc n) 0)

  unfoldable pub summarise : ℕ → List (StrategyTrade F) → BacktestResult F
  unfolding drawdown profit_factor_of ◌+ℤ◌
  summarise signals trades = record {
    total_signals = signals;
    trades_count = length trades;
    win_count = length (filter is_win trades);
    loss_count = length (filter is_loss trades);
    scratch_count = length (filter is_scratch trades);
    win_rate = per_trade (lit (length (filter is_win trades)) 0) (length trades);
    avg_r = per_trade (sum_r nought trades) (length trades);
    total_r = sum_r nought trades;
    profit_factor =
        profit_factor_of (sum_r nought (filter is_win trades))
          (abs (sum_r nought (filter is_loss trades)));
    max_drawdown_r = drawdown nought nought nought trades;
    avg_bars_held = per_trade (of_ℤ (sum_held (pos 0) trades)) (length trades);
    trades = trades;
  }

  unfoldable pub run_backtest :
      Mode → List (Row F) → List (StrategySignal F) → Option (BacktestResult F)
  unfolding run_signals summarise
  run_backtest m frame signals = elim (run_signals m frame (negsuc 0) signals) [
    | none ↦ none
    | some trades ↦ some (summarise (length signals) trades)
  ]
