-- ===== src/Domain/RsiPlan/Decisions.antt =====
-- When the engine says to trade.
use pyharmonics_gpt.Prelude.{
  ℕ, ◌≡◌, ◌⊎◌, Bool, false, not, ◌&&◌, Option, none, some, String, str_eq, ltb, if◌then◌else◌,
}
use pyharmonics_gpt.Float.{Float, lt, ge, abs, lit}
use pyharmonics_gpt.Domain.RsiPlan.{MarketOverview, Decision, conflicts}

-- the direction of a trend that is one
abbrev pub direction_of : String → Option String
direction_of trend =
    if str_eq trend "bullish"
    then some "long"
    else if str_eq trend "bearish"
    then some "short"
    else none

-- the latest signal, if there is one, does not point against the direction
abbrev pub agrees : Option (Option String) → Option String → Bool
agrees none direction = false
agrees (some signal_dir) none = false
agrees (some signal_dir) (some direction) = not (conflicts signal_dir direction)

module _ {F : Type 0} ⦃d : Float F⦄ where
  -- everything that speaks for a trade
  abbrev pub is_ready : MarketOverview F → Option (Option String) → F → ℕ → Bool
  is_ready overview latest_signal quality_score signal_age_bars =
      agrees latest_signal (direction_of overview.trend)
      && not (ge (abs overview.deviation_pct) (lit 15 0))
      && not overview.entangled
      && not (ltb 12 signal_age_bars)
      && not (lt quality_score (lit 50 0))

  -- the decision trades exactly if the test holds, and then in this direction
  abbrev Trades : Bool → Option String → Decision F → Type 0
  Trades ready direction decision =
      (str_eq decision.action "trade" ≡ ready)
      × ((ready ≡ false) ⊎ (decision.direction ≡ direction))
