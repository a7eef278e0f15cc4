-- ===== src/Domain/RsiBacktest/Bars.antt =====
-- One bar of a trade: the variables of the loop of `_simulate_one`, and the steps of its body.
use pyharmonics_gpt.Prelude.{
  Bool, true, false, not, ◌&&◌, ◌⊎◌, inl, inr, List, [], ◌∷◌, ◌++◌, String, str_eq, if◌then◌else◌,
  ℤ,
}
use pyharmonics_gpt.Float.{Float, lt, le, gt, ge, add, sub, mul, div, lit, nought, abs}
use pyharmonics_gpt.Domain.RsiTrend.{Row, StrategySignal, isna}

pub record PartialExit (F : Type 0) : Type 0 where
  pub fraction : F
  pub price : F
  pub r_multiple : F
  pub reason : String
  pub time : String

pub record StrategyTrade (F : Type 0) : Type 0 where
  pub direction : String
  pub entry_price : F
  pub entry_time : String
  pub stop_loss : F
  pub target_price : F
  pub exit_price : F
  pub exit_time : String
  pub exit_reason : String
  pub r_multiple : F
  pub bars_held : ℤ
  pub partials : List (PartialExit F)

pub record Mode : Type 0 where
  pub partial_mode : Bool
  pub trailing_stop : Bool

-- The local variables of `_simulate_one` that its loop changes while the trade is open.
pub record OpenTrade (F : Type 0) : Type 0 where
  pub remaining : F
  pub realized_r : F
  pub stop : F
  pub t1_done : Bool
  pub rsi_done : Bool
  pub trailing_active : Bool
  pub partials : List (PartialExit F)

-- A `break` of the loop, which closes what remains.
pub record Exit (F : Type 0) : Type 0 where
  pub price : F
  pub reason : String
  pub realized_r : F
  pub partials : List (PartialExit F)

module _ {F : Type 0} ⦃d : Float F⦄ where
  unfoldable pub r_multiple_of : String → F → F → F → F
  r_multiple_of direction entry initial_stop price =
      let risk = abs (sub entry initial_stop) in
      if le risk nought
      then nought
      else (if str_eq direction "long"
          then div (sub price entry) risk
          else div (sub entry price) risk)

  abbrev pub is_long : StrategySignal F → Bool
  is_long s = str_eq s.direction "long"

  abbrev pub reward : StrategySignal F → F → F
  reward s = r_multiple_of s.direction s.entry_price s.stop_loss

  unfoldable pub close_at : StrategySignal F → OpenTrade F → F → String → Exit F
  unfolding r_multiple_of
  close_at s t price reason = record {
    price = price;
    reason = reason;
    realized_r = add t.realized_r (mul t.remaining (reward s price));
    partials = t.partials;
  }

  abbrev pub stop_touched : StrategySignal F → F → Row F → Bool
  stop_touched s stop row = if is_long s then le row.low stop else ge row.high stop

  abbrev pub target_touched : StrategySignal F → Row F → Bool
  target_touched s row = if is_long s then ge row.high s.target_price else le row.low s.target_price

  -- half of what remains is closed
  unfoldable pub reduce : StrategySignal F → Row F → OpenTrade F → F → String → OpenTrade F
  unfolding r_multiple_of
  reduce s row t price reason =
      let half = mul t.remaining (lit 5 1) in
      let gained = mul half (reward s price) in
      record {
        remaining = sub t.remaining half;
        realized_r = add t.realized_r gained;
        stop = t.stop;
        t1_done = t.t1_done;
        rsi_done = t.rsi_done;
        trailing_active = t.trailing_active;
        partials =
            t.partials
            ++ (record {
              fraction = half;
              price = price;
              r_multiple = gained;
              reason = reason;
              time = row.time;
            }
                ∷ []);
      }

  -- the first target in partial mode: the stop moves to breakeven
  unfoldable pub take_first_target : Mode → StrategySignal F → Row F → OpenTrade F → OpenTrade F
  unfolding reduce
  take_first_target m s row t =
      let reduced = reduce s row t s.target_price "partial_target" in
      record {
        remaining = reduced.remaining;
        realized_r = reduced.realized_r;
        stop = s.entry_price;
        t1_done = true;
        rsi_done = reduced.rsi_done;
        trailing_active = m.trailing_stop;
        partials = reduced.partials;
      }

  -- step 3
  unfoldable pub rsi_step : Mode → StrategySignal F → Row F → OpenTrade F → OpenTrade F
  unfolding reduce
  rsi_step m s row t =
      let extreme = if is_long s then gt row.rsi (lit 70 0) else lt row.rsi (lit 30 0) in
      let reduced = reduce s row t row.close "rsi_extreme" in
      if m.partial_mode && t.t1_done && not t.rsi_done && not (isna row.rsi) && extreme
      then record {
        remaining = reduced.remaining;
        realized_r = reduced.realized_r;
        stop = reduced.stop;
        t1_done = reduced.t1_done;
        rsi_done = true;
        trailing_active = reduced.trailing_active;
        partials = reduced.partials;
      }
      else t

  -- step 3b
  unfoldable pub trailed_stop : StrategySignal F → Row F → F → F
  trailed_stop s row stop =
      let below = sub row.close row.atr in
      let above = add row.close row.atr in
      if is_long s
      then (if gt below stop then below else stop)
      else (if lt above stop then above else stop)

  unfoldable pub trail_step : StrategySignal F → Row F → OpenTrade F → OpenTrade F
  unfolding trailed_stop
  trail_step s row t =
      if t.trailing_active && not (isna row.atr)
      then record {
        remaining = t.remaining;
        realized_r = t.realized_r;
        stop = trailed_stop s row t.stop;
        t1_done = t.t1_done;
        rsi_done = t.rsi_done;
        trailing_active = t.trailing_active;
        partials = t.partials;
      }
      else t

  -- step 4
  abbrev pub flipped : StrategySignal F → Row F → Bool
  flipped s row =
      not (isna row.ema200)
      && (if is_long s then lt row.close row.ema200 else gt row.close row.ema200)

  unfoldable pub after_target : Mode → StrategySignal F → Row F → OpenTrade F → OpenTrade F ⊎ Exit F
  unfolding rsi_step trail_step close_at
  after_target m s row t =
      let trailed = trail_step s row (rsi_step m s row t) in
      if flipped s row then inr (close_at s trailed row.close "trend_flip") else inl trailed

  -- a bar after the signal bar
  unfoldable pub later_bar : Mode → StrategySignal F → Row F → OpenTrade F → OpenTrade F ⊎ Exit F
  unfolding close_at take_first_target after_target
  later_bar m s row t =
      if stop_touched s t.stop row
      then inr (close_at s t t.stop "stop_loss")
      else if target_touched s row && not t.t1_done
      then (if m.partial_mode
          then after_target m s row (take_first_target m s row t)
          else inr (close_at s t s.target_price "target"))
      else after_target m s row t

  -- the signal bar itself
  unfoldable pub signal_bar : StrategySignal F → Row F → OpenTrade F → OpenTrade F ⊎ Exit F
  unfolding close_at
  signal_bar s row t =
      if stop_touched s t.stop row then inr (close_at s t t.stop "stop_loss") else inl t

  unfoldable pub opened : StrategySignal F → OpenTrade F
  opened s = record {
    remaining = lit 1 0;
    realized_r = nought;
    stop = s.stop_loss;
    t1_done = false;
    rsi_done = false;
    trailing_active = false;
    partials = [];
  }

  unfoldable pub trade_of :
      StrategySignal F → F → String → String → F → ℤ → List (PartialExit F) → StrategyTrade F
  trade_of s price time reason realized held partials = record {
    direction = s.direction;
    entry_price = s.entry_price;
    entry_time = s.time;
    stop_loss = s.stop_loss;
    target_price = s.target_price;
    exit_price = price;
    exit_time = time;
    exit_reason = reason;
    r_multiple = realized;
    bars_held = held;
    partials = partials;
  }
