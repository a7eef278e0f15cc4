-- ===== src/Domain/RsiBacktest/Metrics.antt =====
-- The figures of a backtest.
use mathlib.Core.Option.{some-injective, none-ne-some}
use pyharmonics_gpt.Prelude.{
  ℕ, suc, ◌+◌, ◌≡◌, refl, subst, Bool, true, false, ◌&&◌, arith, Option, none, some, List, [], ◌∷◌,
  length, filter, if◌then◌else◌, negsuc,
}
use pyharmonics_gpt.Float.{
  Float, IsOrdered, IsNumber, lt, le, gt, add, sub, nought, max, le-max_left,
}
use pyharmonics_gpt.Domain.RsiTrend.{Row, StrategySignal, Options, warmup_bars, detect_signals}
use pyharmonics_gpt.Domain.RsiTrend.Detection.{Ascends, detect_signals-Kept}
use pyharmonics_gpt.Domain.RsiBacktest.{
  StrategyTrade, BacktestResult, Mode, is_win, is_loss, is_scratch, drawdown, summarise,
  run_signals, run_backtest,
}
use pyharmonics_gpt.Domain.RsiBacktest.Schedule.{Within, Schedule, run_signals-Scheduled}

module _ {F : Type 0} ⦃d : Float F⦄ where
  abbrev pub HasNumbers : List (StrategyTrade F) → Type 0
  HasNumbers [] = Unit
  HasNumbers (t ∷ trades) = IsNumber t.r_multiple × HasNumbers trades

  one_kind :
      (o : IsOrdered F) (x : F) (wins losses scratches all : ℕ)
      → IsNumber x
      → wins + losses + scratches ≡ all
      → (if gt x nought then suc wins else wins)
          + (if lt x nought then suc losses else losses)
          + (if le x nought && le nought x then suc scratches else scratches)
        ≡ suc all
  one_kind o x wins losses scratches all h e = ground (
    arith,
    e,
    o.lt_of_not_le x nought h (o.lit_IsNumber 0 0),
    o.lt_of_not_le nought x (o.lit_IsNumber 0 0) h,
    o.not_le_of_lt x nought,
    o.not_le_of_lt nought x,
    o.le_of_lt x nought,
    o.le_of_lt nought x,
  )

  length-if :
      (b : Bool) (t : StrategyTrade F) (trades : List (StrategyTrade F))
      → length (if b then t ∷ trades else trades)
        ≡ (if b then suc (length trades) else length trades)
  length-if true t trades = refl
  length-if false t trades = refl

  kinds-length :
      (o : IsOrdered F) (trades : List (StrategyTrade F))
      → HasNumbers trades
      → length (filter is_win trades)
          + length (filter is_loss trades)
          + length (filter is_scratch trades)
        ≡ length trades
  kinds-length o [] h = omega arith
  kinds-length o (t ∷ trades) (ht, h) =
      rw
        (
          length-if (is_win t) t (filter is_win trades),
          length-if (is_loss t) t (filter is_loss trades),
          length-if (is_scratch t) t (filter is_scratch trades),
        )
        (one_kind o t.r_multiple _ _ _ _ ht (kinds-length o trades h))

  drawdown-le :
      (o : IsOrdered F) (peak max_dd cumulative : F) (trades : List (StrategyTrade F))
      → IsNumber max_dd
      → le max_dd (drawdown peak max_dd cumulative trades) ≡ true
  unfolding drawdown
  drawdown-le o peak max_dd cumulative [] h = h
  drawdown-le o peak max_dd cumulative (t ∷ trades) h =
      let now = add cumulative t.r_multiple in
      let drop = sub (max peak now) now in
      let step = le-max_left o max_dd drop h in
      o.le_trans _ _ _ step
        (drawdown-le o (max peak now) (max max_dd drop) now trades ((o.refl_of_le _ _ step).1))

  Ascends-Within :
      (low : ℕ) (frame : List (Row F)) (signals : List (StrategySignal F))
      → Ascends low (length frame) signals
      → Within frame signals
  Ascends-Within low frame [] h = tt
  Ascends-Within low frame (s ∷ signals) (hl, hh, h) =
      (hh, Ascends-Within (suc s.index) frame signals h)

  run_backtest-some :
      (m : Mode) (frame : List (Row F)) (signals : List (StrategySignal F))
      (trades : List (StrategyTrade F))
      → run_signals m frame (negsuc 0) signals ≡ some trades
      → run_backtest m frame signals ≡ some (summarise (length signals) trades)
  unfolding run_backtest
  run_backtest-some m frame signals trades e = rw (e, run_backtest) refl

  -- In any mode, the backtest of the signals that the strategy detects returns a result. Its trades
  -- follow the signals in order: a signal whose bar an open trade still covers is skipped, and every
  -- other becomes the trade that the simulation gives for it, which ends on its own bar or a later
  -- one of the data. The count of trades is their number, and the count of signals that of all.
  pub backtest_of_detected :
      (m : Mode) (o : Options F) (frame : List (Row F))
      → let signals = detect_signals o frame in
        (result : BacktestResult F) × (run_backtest m frame signals ≡ some result)
        × Schedule m frame 0 signals result.trades
        × (result.trades_count ≡ length result.trades)
        × (result.total_signals ≡ length signals)
  unfolding summarise
  backtest_of_detected m o frame =
      let signals = detect_signals o frame in
      let within = Ascends-Within warmup_bars frame signals ((detect_signals-Kept o frame).0) in
      let (trades, e, schedule) = run_signals-Scheduled m frame 0 signals within in
      (
        summarise (length signals) trades,
        run_backtest-some m frame signals trades e,
        schedule,
        refl,
        refl,
      )

  -- the counts of a result add up, and its drawdown is not negative
  abbrev Sound : BacktestResult F → Type 0
  Sound result =
      HasNumbers result.trades
      → (result.win_count + result.loss_count + result.scratch_count ≡ result.trades_count)
        × (le nought result.max_drawdown_r ≡ true)

  summarise-Sound :
      (o : IsOrdered F) (n : ℕ) (trades : List (StrategyTrade F)) → Sound (summarise n trades)
  unfolding summarise
  summarise-Sound o n trades h =
      (kinds-length o trades h, drawdown-le o nought nought nought trades (o.lit_IsNumber 0 0))

  backtest-if :
      (o : IsOrdered F) (n : ℕ) (outcome : Option (List (StrategyTrade F)))
      (result : BacktestResult F)
      → (elim outcome [ none ↦ none | some trades ↦ some (summarise n trades) ]) ≡ some result
      → Sound result
  backtest-if o n none result e = absurd (none-ne-some _ e)
  backtest-if o n (some trades) result e =
      subst Sound (some-injective _ _ e) (summarise-Sound o n trades)

  -- If the R multiple of every trade is a number, the trades of a backtest are counted as wins,
  -- losses and scratches, each once, and the greatest drawdown is not negative.
  pub run_backtest-kinds :
      (o : IsOrdered F) (m : Mode) (frame : List (Row F)) (signals : List (StrategySignal F))
      (result : BacktestResult F)
      → run_backtest m frame signals ≡ some result
      → HasNumbers result.trades
      → (result.win_count + result.loss_count + result.scratch_count ≡ result.trades_count)
        × (le nought result.max_drawdown_r ≡ true)
  unfolding run_backtest
  run_backtest-kinds o m frame signals result e =
      backtest-if o (length signals) (run_signals m frame (negsuc 0) signals) result e
