-- ===== src/Domain/RsiBacktest/Exits.antt =====
-- Where a trade of the simulation ends when it is not scaled out.
use pyharmonics_gpt.Prelude.{
  ℕ, zero, suc, ◌<◌, ◌≡◌, refl, Bool, true, false, ◌&&◌, arith, ◌⊎◌, inl, inr, Option, none, some,
  List, [], ◌∷◌, String, length, if◌then◌else◌, pos, sub_ℕ,
}
use pyharmonics_gpt.Float.{Float, lt, add, mul, lit, nought}
use pyharmonics_gpt.Domain.RsiTrend.{Row, StrategySignal, drop}
use pyharmonics_gpt.Domain.RsiBacktest.{
  StrategyTrade, Mode, OpenTrade, Exit, reward, close_at, stop_touched, target_touched, flipped,
  rsi_step, trail_step, after_target, later_bar, signal_bar, opened, trade_of, run_later, run_bars,
  last_row, flatten, simulate_one,
}

abbrev pub simple : Bool → Mode
simple trailing = record { partial_mode = false; trailing_stop = trailing }

-- `i > signal.index`, of the k-th bar from the signal
abbrev pub is_later : ℕ → Bool
is_later zero = false
is_later (suc k) = true

module _ {F : Type 0} ⦃d : Float F⦄ where
  -- Why, and at what price, a bar takes the trade out: on the signal's own bar only the stop; on a
  -- later one the stop before the target before the trend.
  abbrev pub exit_of : ℕ → StrategySignal F → Row F → Option (String × F)
  exit_of k s row =
      if stop_touched s s.stop_loss row
      then some ("stop_loss", s.stop_loss)
      else if is_later k && target_touched s row
      then some ("target", s.target_price)
      else if is_later k && flipped s row
      then some ("trend_flip", row.close)
      else none

  -- the first of the rows, counted from the k-th, that takes the trade out, if any does
  pub data FirstExit (s : StrategySignal F)
      : ℕ → List (Row F) → Option (String × F × ℕ × String) → Type 0 where
    no_exit : {k : ℕ} → FirstExit s k [] none
    exits :
        {k : ℕ} {row : Row F} {rows : List (Row F)} {reason : String} {price : F}
        → exit_of k s row ≡ some (reason, price)
        → FirstExit s k (row ∷ rows) (some (reason, price, k, row.time))
    stays :
        {k : ℕ} {row : Row F} {rows : List (Row F)} {found : Option (String × F × ℕ × String)}
        → exit_of k s row ≡ none
        → FirstExit s (suc k) rows found
        → FirstExit s k (row ∷ rows) found

  abbrev bar_result : StrategySignal F → Option (String × F) → OpenTrade F ⊎ Exit F
  bar_result s none = inl (opened s)
  bar_result s (some (reason, price)) = inr (close_at s (opened s) price reason)

  abbrev run_result :
      StrategySignal F → Option (String × F × ℕ × String) → OpenTrade F ⊎ (Exit F × ℕ × String)
  run_result s none = inl (opened s)
  run_result s (some (reason, price, k, time)) = inr (close_at s (opened s) price reason, k, time)

  later-if :
      (s : StrategySignal F) (p q r : F) (a b c : Bool)
      → (if a
          then inr (close_at s (opened s) p "stop_loss")
          else if b && true
          then inr (close_at s (opened s) q "target")
          else if c
          then inr (close_at s (opened s) r "trend_flip")
          else inl (opened s))
        ≡ bar_result s (
            if a
            then some ("stop_loss", p)
            else if b
            then some ("target", q)
            else if c
            then some ("trend_flip", r)
            else none)
  later-if s p q r true b c = refl
  later-if s p q r false true c = refl
  later-if s p q r false false true = refl
  later-if s p q r false false false = refl

  later_bar-result :
      (trailing : Bool) (s : StrategySignal F) (row : Row F) (k : ℕ)
      → later_bar (simple trailing) s row (opened s) ≡ bar_result s (exit_of (suc k) s row)
  unfolding later_bar after_target rsi_step trail_step opened
  later_bar-result trailing s row k =
      later-if s s.stop_loss s.target_price row.close (stop_touched s s.stop_loss row)
        (target_touched s row) (flipped s row)

  signal-if :
      (s : StrategySignal F) (p : F) (a : Bool)
      → (if a then inr (close_at s (opened s) p "stop_loss") else inl (opened s))
        ≡ bar_result s (if a then some ("stop_loss", p) else none)
  signal-if s p true = refl
  signal-if s p false = refl

  signal_bar-result :
      (s : StrategySignal F) (row : Row F)
      → signal_bar s row (opened s) ≡ bar_result s (exit_of 0 s row)
  unfolding signal_bar opened
  signal_bar-result s row = signal-if s s.stop_loss (stop_touched s s.stop_loss row)

  later-step :
      (trailing : Bool) (s : StrategySignal F) (row : Row F) (rows : List (Row F)) (k : ℕ)
      (outcome : OpenTrade F ⊎ Exit F) (found : Option (String × F))
      → outcome ≡ bar_result s found
      → exit_of (suc k) s row ≡ found
      → ((r : Option (String × F × ℕ × String)) × FirstExit s (suc (suc k)) rows r
          × (run_later (simple trailing) s (opened s) (suc (suc k)) rows ≡ run_result s r))
      → (r : Option (String × F × ℕ × String)) × FirstExit s (suc k) (row ∷ rows) r
        × ((elim outcome [
          | inl next ↦ run_later (simple trailing) s next (suc (suc k)) rows
          | inr e ↦ inr (e, suc k, row.time)
        ])
            ≡ run_result s r)
  later-step trailing s row rows k outcome none e h (r, first, eq) = (r, stays h first, rw e eq)
  later-step trailing s row rows k outcome (some (reason, price)) e h rest =
      (some (reason, price, suc k, row.time), exits h, rw e refl)

  run_later-FirstExit :
      (trailing : Bool) (s : StrategySignal F) (k : ℕ) (rows : List (Row F))
      → (r : Option (String × F × ℕ × String)) × FirstExit s (suc k) rows r
        × (run_later (simple trailing) s (opened s) (suc k) rows ≡ run_result s r)
  unfolding run_later
  run_later-FirstExit trailing s k [] = (none, no_exit, refl)
  run_later-FirstExit trailing s k (row ∷ rows) =
      later-step trailing s row rows k (later_bar (simple trailing) s row (opened s))
        (exit_of (suc k) s row) (later_bar-result trailing s row k) refl
        (run_later-FirstExit trailing s (suc k) rows)

  first-step :
      (trailing : Bool) (s : StrategySignal F) (row : Row F) (rows : List (Row F))
      (outcome : OpenTrade F ⊎ Exit F) (found : Option (String × F))
      → outcome ≡ bar_result s found
      → exit_of 0 s row ≡ found
      → (r : Option (String × F × ℕ × String)) × FirstExit s 0 (row ∷ rows) r
        × ((elim outcome [
          | inl next ↦ run_later (simple trailing) s next 1 rows
          | inr e ↦ inr (e, 0, row.time)
        ])
            ≡ run_result s r)
  first-step trailing s row rows outcome none e h =
      let rest = run_later-FirstExit trailing s 0 rows in (rest.0, stays h (rest.1), rw e (rest.2))
  first-step trailing s row rows outcome (some (reason, price)) e h =
      (some (reason, price, 0, row.time), exits h, rw e refl)

  run_bars-FirstExit :
      (trailing : Bool) (s : StrategySignal F) (rows : List (Row F))
      → (r : Option (String × F × ℕ × String)) × FirstExit s 0 rows r
        × (run_bars (simple trailing) s (opened s) rows ≡ run_result s r)
  unfolding run_bars
  run_bars-FirstExit trailing s [] = (none, no_exit, refl)
  run_bars-FirstExit trailing s (row ∷ rows) =
      first-step trailing s row rows (signal_bar s row (opened s)) (exit_of 0 s row)
        (signal_bar-result s row) refl

  -- What the trade records of its exit: the whole position leaves at once, at the price found, or at
  -- the last close if none is.
  abbrev pub Records :
      List (Row F) → StrategySignal F → Option (String × F × ℕ × String) → StrategyTrade F → Type 0
  Records frame s none t =
      (row : Row F) × (last_row frame ≡ some row)
      × (t.exit_reason ≡ "end_of_data")
      × (t.exit_price ≡ row.close)
      × (t.r_multiple ≡ add nought (mul (lit 1 0) (reward s row.close)))
      × (t.bars_held ≡ sub_ℕ (length frame) (suc s.index))
  Records frame s (some (reason, price, k, time)) t =
      (t.exit_reason ≡ reason)
      × (t.exit_price ≡ price)
      × (t.exit_time ≡ time)
      × (t.r_multiple ≡ add nought (mul (lit 1 0) (reward s price)))
      × (t.bars_held ≡ pos k)

  pub last_row_exists :
      (frame : List (Row F)) → 0 < length frame → (row : Row F) × (last_row frame ≡ some row)
  last_row_exists [] h = absurd (omega arith)
  last_row_exists (row ∷ []) h = (row, refl)
  last_row_exists (row ∷ next ∷ rows) h = last_row_exists (next ∷ rows) (omega arith)

  -- the trade that is flattened at the close of this row
  abbrev ended : List (Row F) → StrategySignal F → Row F → StrategyTrade F
  ended frame s row =
      trade_of s row.close row.time "end_of_data" (add nought (mul (lit 1 0) (reward s row.close)))
        (sub_ℕ (length frame) (suc s.index)) []

  flatten-last :
      (frame : List (Row F)) (s : StrategySignal F) (row : Row F)
      → lt {F = F} nought (lit 1 0) ≡ true
      → last_row frame ≡ some row
      → flatten frame s (opened s) ≡ some (ended frame s row)
  unfolding flatten opened
  flatten-last frame s row positive e = rw (positive, e) refl

  simulated :
      (frame : List (Row F)) (s : StrategySignal F) (outcome : OpenTrade F ⊎ (Exit F × ℕ × String))
      (r : Option (String × F × ℕ × String))
      → lt {F = F} nought (lit 1 0) ≡ true
      → s.index < length frame
      → outcome ≡ run_result s r
      → (t : StrategyTrade F) × ((elim outcome [
        | inl t ↦ flatten frame s t
        | inr (e, k, time) ↦ some (trade_of s e.price time e.reason e.realized_r (pos k) e.partials)
      ])
          ≡ some t)
        × Records frame s r t
  unfolding flatten trade_of opened close_at
  simulated frame s outcome none positive h e =
      let last = last_row_exists frame (omega arith) in
      (
        ended frame s (last.0),
        rw e (flatten-last frame s (last.0) positive (last.1)),
        (last.0, last.1, refl, refl, refl, refl),
      )
  simulated frame s outcome (some (reason, price, k, time)) positive h e = (
    trade_of s price time reason (add nought (mul (lit 1 0) (reward s price))) (pos k) [],
    rw e refl,
    (refl, refl, refl, refl, refl),
  )

  -- Unless the trade is scaled out, the simulation of a signal within the data returns a trade, and
  -- the trade ends at the first bar that takes it out: by the stop on the signal's own bar, and on a
  -- later one by the stop, else the target, else a close across EMA200; without such a bar it ends at
  -- the last close. The trade records that bar's reason, price, time and distance, and its R multiple
  -- is that of the whole position at that price.
  pub simulate_one-FirstExit :
      (trailing : Bool) (frame : List (Row F)) (s : StrategySignal F)
      → lt {F = F} nought (lit 1 0) ≡ true
      → s.index < length frame
      → (r : Option (String × F × ℕ × String)) × (t : StrategyTrade F) × (simulate_one
            (simple trailing)
            frame
            s
          ≡ some t)
        × FirstExit s 0 (drop s.index frame) r
        × Records frame s r t
  unfolding simulate_one
  simulate_one-FirstExit trailing frame s positive h =
      let run = run_bars-FirstExit trailing s (drop s.index frame) in
      let done =
        simulated frame s (run_bars (simple trailing) s (opened s) (drop s.index frame)) (run.0)
          positive h (run.2) in
      (run.0, done.0, done.1, run.1, done.2)
