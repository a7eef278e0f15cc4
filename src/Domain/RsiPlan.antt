-- ===== src/Domain/RsiPlan.antt =====
-- The decision engine of the trend-RSI plan, app/domain/rsi_trend_plan.py. Python's `round` to two
-- and eight digits is an argument; the texts of reasons and notes are left out.
pub mod Decisions
mod Tests
use pyharmonics_gpt.Prelude.{
  ℕ, Bool, true, false, not, ◌&&◌, ◌||◌, Option, none, some, List, [], ◌∷◌, ◌++◌, String, str_eq,
  ltb, if◌then◌else◌,
}
use pyharmonics_gpt.Float.{Float, lt, le, gt, ge, add, sub, mul, div, lit, nought, abs, max, min}

-- The fields of `MarketOverview` that the engine reads.
pub record MarketOverview (F : Type 0) : Type 0 where
  pub trend : String
  pub trend_strength : F
  pub deviation_pct : F
  pub volatility_regime : String
  pub entangled : Bool

-- a warning, by its text
pub data Warning : Type 0 where
  ageing_signal high_volatility : Warning

pub record Decision (F : Type 0) : Type 0 where
  pub action : String
  pub direction : Option String
  pub confidence : F
  pub warnings : List Warning

pub record Target (F : Type 0) : Type 0 where
  pub level : String
  pub price : F
  pub rr : F
  pub weight : F

-- `signal_dir and signal_dir != direction`
abbrev pub conflicts : Option String → String → Bool
conflicts none direction = false
conflicts (some s) direction = not (str_eq s "") && not (str_eq s direction)

module _ {F : Type 0} ⦃d : Float F⦄ where
  -- `if atr`
  abbrev pub is_truthy : F → Bool
  is_truthy x = not (le x nought && le nought x)

  abbrev pub hugs : Option F → F → F → Bool
  hugs none close ema200 = false
  hugs (some atr) close ema200 = is_truthy atr && lt (abs (sub close ema200)) (mul (lit 5 1) atr)

  unfoldable pub compute_trend_strength : (F → F) → F → F → F → Option F → F
  compute_trend_strength round2 close ema200 ema50 atr =
      let aligned = (gt close ema50 && gt ema50 ema200) || (lt close ema50 && lt ema50 ema200) in
      let alignment = if aligned then lit 5 1 else nought in
      let deviation = min (abs (div (sub close ema200) ema200)) (lit 10 2) in
      let strength = mul (div deviation (lit 10 2)) (lit 5 1) in
      let damped = if hugs atr close ema200 then mul strength (lit 4 1) else strength in
      if le ema200 nought || le close nought
      then nought
      else round2 (min (add alignment damped) (lit 1 0))

  unfoldable pub volatility_regime_of : Option F → F → String
  volatility_regime_of none close = "normal"
  volatility_regime_of (some atr) close =
      let pct = mul (div atr close) (lit 100 0) in
      if le close nought
      then "normal"
      else if lt pct (lit 8 1)
      then "low"
      else if gt pct (lit 3 0)
      then "high"
      else "normal"

  unfoldable pub compute_confidence : F → F → ℕ → F
  compute_confidence trend_strength quality_score signal_age_bars =
      let qs = div quality_score (lit 100 0) in
      let freshness = max nought (sub (lit 1 0) (div (lit signal_age_bars 0) (lit 24 0))) in
      let conf =
        add
          (add (add (mul (lit 35 2) trend_strength) (mul (lit 30 2) qs)) (mul (lit 20 2) (lit 7 1)))
          (mul (lit 15 2) freshness) in
      min (max conf nought) (lit 1 0)

  -- a decision not to trade
  abbrev pub refrain : String → Option String → List Warning → Decision F
  refrain action direction warnings = record {
    action = action;
    direction = direction;
    confidence = nought;
    warnings = warnings;
  }

  -- the layers behind the trend filter, for the direction of the trend; the latest signal is given by
  -- its direction
  unfoldable pub decide_signal :
      (F → F) → MarketOverview F → String → Option String → F → ℕ → Decision F
  unfolding compute_confidence
  decide_signal round2 overview direction signal_dir quality_score signal_age_bars =
      let ageing = if ltb 3 signal_age_bars then ageing_signal ∷ [] else [] in
      let volatile =
        if str_eq overview.volatility_regime "high" then high_volatility ∷ [] else [] in
      if conflicts signal_dir direction
      then refrain "no_trade" none []
      else if ltb 12 signal_age_bars
      then refrain "watch" (some direction) []
      else if lt quality_score (lit 50 0)
      then refrain "no_trade" none []
      else record {
        action = "trade";
        direction = some direction;
        confidence =
            round2 (compute_confidence overview.trend_strength quality_score signal_age_bars);
        warnings = ageing ++ volatile;
      }

  unfoldable pub decide_trend :
      (F → F) → MarketOverview F → String → Option (Option String) → F → ℕ → Decision F
  unfolding decide_signal
  decide_trend round2 overview direction latest_signal quality_score signal_age_bars =
      if ge (abs overview.deviation_pct) (lit 15 0)
      then refrain "watch" (some direction) []
      else if overview.entangled
      then refrain "watch" (some direction) []
      else elim latest_signal [
        | none ↦ refrain "no_trade" none []
        | some signal_dir ↦
            decide_signal round2 overview direction signal_dir quality_score signal_age_bars
      ]

  unfoldable pub evaluate_decision :
      (F → F) → MarketOverview F → Option (Option String) → F → ℕ → Decision F
  unfolding decide_trend
  evaluate_decision round2 overview latest_signal quality_score signal_age_bars =
      if str_eq overview.trend "bullish"
      then decide_trend round2 overview "long" latest_signal quality_score signal_age_bars
      else if str_eq overview.trend "bearish"
      then decide_trend round2 overview "short" latest_signal quality_score signal_age_bars
      else refrain "watch" none []

  -- `compute_targets`; the sign of a short is -1
  unfoldable pub compute_targets : (F → F) → F → F → String → List (Target F)
  compute_targets round8 entry stop direction =
      let risk = abs (sub entry stop) in
      let sign = if str_eq direction "long" then lit 1 0 else sub nought (lit 1 0) in
      let target : String → F → F → Target F = λ level multiple weight. record {
        level = level;
        price = round8 (add entry (mul (mul sign risk) multiple));
        rr = multiple;
        weight = weight;
      } in
      if le risk nought
      then []
      else target "tp1" (lit 1 0) (lit 50 2)
        ∷ target "tp2" (lit 2 0) (lit 30 2)
        ∷ target "tp3" (lit 35 1) (lit 20 2)
        ∷ []
