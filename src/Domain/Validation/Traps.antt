-- ===== src/Domain/Validation/Traps.antt =====
-- The trap score and the multiplier of the stop that is made of it.
use pyharmonics_gpt.Prelude.{
  ℕ, ◌-◌, ◌≤◌, ◌≡◌, Bool, true, false, arith, some, List, [], length, ltb, if◌then◌else◌,
}
use pyharmonics_gpt.Float.{Float, le, gt, lit}
use pyharmonics_gpt.Domain.Validation.{trap_curve, trap_stop_multiplier}
use pyharmonics_gpt.Domain.Validation.Frames.{
  Bar, breakout_score, penalised, rate, false_breaks, stop_hunts, climaxes, tail_rows, trap_of,
  quant_trap_risk,
}

penalised-le :
    (score : ℕ) (hunted climbed : Bool) → score ≤ 50 → penalised score hunted climbed ≤ 50
unfolding penalised
penalised-le score hunted climbed h = ground arith

abbrev first_of : ℕ × Bool → ℕ
first_of x = x.0

if-le : (b : Bool) (x : ℕ × Bool) → first_of x ≤ 50 → first_of (if b then (50, false) else x) ≤ 50
if-le true x h = omega arith
if-le false x h = h

module _ {F : Type 0} ⦃d : Float F⦄ where
  breakout_score-le : (fb_rate : F) → (breakout_score fb_rate).0 ≤ 50
  unfolding breakout_score
  breakout_score-le fb_rate = ground arith

  trap_of-le :
      (bars : List (Bar F)) (prz_low prz_high : F) (bullish : Bool)
      → (trap_of bars prz_low prz_high bullish).0 ≤ 50
  unfolding trap_of
  trap_of-le bars prz_low prz_high bullish =
      let n = length bars in
      let fb_rate : F = rate (false_breaks [] bars) (n - 5) in
      let hunt_rate : F = rate (stop_hunts [] bars) (n - 4) in
      let climax_rate : F = rate (climaxes bars) (n - 1) in
      penalised-le (breakout_score fb_rate).0 (gt hunt_rate (lit 10 2)) (gt climax_rate (lit 12 2))
        (breakout_score-le fb_rate)

  quant_trap_risk-le :
      (lookback : ℕ) (rows : List (Bar F)) (prz_low prz_high : F) (bullish : Bool)
      → (quant_trap_risk lookback rows prz_low prz_high bullish).0 ≤ 50
  unfolding quant_trap_risk
  quant_trap_risk-le lookback rows prz_low prz_high bullish =
      let bars = tail_rows lookback rows in
      if-le (ltb (length bars) 15) (trap_of bars prz_low prz_high bullish)
        (trap_of-le bars prz_low prz_high bullish)

  flat_below :
      (score : ℕ)
      → score ≤ 50
      → le {F = F} (lit 1 0) (lit 1 0) ≡ true
      → le {F = F} (lit 1 0) (lit 2 0) ≡ true
      → trap_stop_multiplier {F = F} score ≡ some (lit 1 0)
  unfolding trap_stop_multiplier trap_curve
  flat_below score h one two = ground (arith, h, one, two)

  -- Whatever the candles, the trap score is at most 50, since every sign of a trap lowers it; so the
  -- multiplier that is made of it, which rises from a score of 60 on, is always 1, if the literals 1.0
  -- and 2.0 are in order.
  pub quant_trap_risk-never_widens :
      (lookback : ℕ) (rows : List (Bar F)) (prz_low prz_high : F) (bullish : Bool)
      → le {F = F} (lit 1 0) (lit 1 0) ≡ true
      → le {F = F} (lit 1 0) (lit 2 0) ≡ true
      → let score = (quant_trap_risk lookback rows prz_low prz_high bullish).0 in
        (score ≤ 50) × (trap_stop_multiplier {F = F} score ≡ some (lit 1 0))
  quant_trap_risk-never_widens lookback rows prz_low prz_high bullish one two =
      let small = quant_trap_risk-le lookback rows prz_low prz_high bullish in
      (small, flat_below _ small one two)
