-- ===== src/Domain/Validation/Verdicts.antt =====
-- The verdict on stability, and the bounds of the volatility multiplier.
use pyharmonics_gpt.Prelude.{
  ◌≤◌, ◌≡◌, ◌⊎◌, inl, inr, Bool-cases, subst, Bool, true, false, not, ◌&&◌, arith, Option, String,
  if◌then◌else◌,
}
use pyharmonics_gpt.Float.{
  Float, IsOrdered, le, mul, div, max, min, lit, nought, le-max_left, min-le_left,
}
use pyharmonics_gpt.Float.Rounding.{IsRounded}
use pyharmonics_gpt.Domain.Validation.{named, same, stability_verdict, volatility_multiplier}

-- A pattern is suspect exactly if the full window has it and neither trimmed window has any. The
-- score lies between 20 and 85, and it is at most 60 unless the three windows agree.
pub stability_verdict-suspect :
    (full sub1 sub2 : Option String)
    → ((stability_verdict full sub1 sub2).1 ≡ (named full && not (named sub1) && not (named sub2)))
      × (20 ≤ (stability_verdict full sub1 sub2).0)
      × ((stability_verdict full sub1 sub2).0 ≤ 85)
      × (((stability_verdict full sub1 sub2).0 ≤ 60) ⊎ ((same full sub1 && same sub1 sub2) ≡ true))
unfolding stability_verdict
stability_verdict-suspect full sub1 sub2 = (
  ground arith,
  ground arith,
  ground arith,
  elim (Bool-cases (same full sub1 && same sub1 sub2)) [
    | inl agree ↦ inr agree
    | inr differ ↦ inl (ground arith)
  ],
)

module _ {F : Type 0} ⦃d : Float F⦄ (o : IsOrdered F) {round4 : F → F}
    (r : IsRounded F round4) where
  clamp-bounds :
      (x : F)
      → le {F = F} (lit 5 1) (lit 15 1) ≡ true
      → (le (lit 5 1) (min (lit 15 1) (max (lit 5 1) x)) ≡ true)
        × (le (min (lit 15 1) (max (lit 5 1) x)) (lit 15 1) ≡ true)
  clamp-bounds x h =
      let low = le-max_left o (lit 5 1) x (o.lit_IsNumber 5 1) in
      (ground (arith, low, h), min-le_left o (lit 15 1) (max (lit 5 1) x) (o.lit_IsNumber 15 1))

  within-if :
      (b : Bool) (x : F)
      → (le (lit 5 1) (round4 x) ≡ true) × (le (round4 x) (lit 15 1) ≡ true)
      → (le {F = F} (lit 5 1) (lit 1 0) ≡ true) × (le {F = F} (lit 1 0) (lit 15 1) ≡ true)
      → (le (lit 5 1) (if b then lit 1 0 else round4 x) ≡ true)
        × (le (if b then lit 1 0 else round4 x) (lit 15 1) ≡ true)
  within-if true x h one = one
  within-if false x h one = h

  -- The volatility multiplier lies between 0.5 and 1.5, whatever the ATR, the price and the target
  -- are, NaN included, if the literals 0.5, 1.0 and 1.5 are in order and unchanged by the rounding to
  -- four digits.
  pub volatility_multiplier-bounds :
      (atr close target_atr_pct : F)
      → le {F = F} (lit 5 1) (lit 1 0) ≡ true
      → le {F = F} (lit 1 0) (lit 15 1) ≡ true
      → round4 (lit 5 1) ≡ lit 5 1
      → round4 (lit 15 1) ≡ lit 15 1
      → let m = volatility_multiplier round4 atr close target_atr_pct in
        (le (lit 5 1) m ≡ true) × (le m (lit 15 1) ≡ true)
  unfolding volatility_multiplier
  volatility_multiplier-bounds atr close target_atr_pct low high round_low round_high =
      let x = div target_atr_pct (max (mul (div atr close) (lit 100 0)) (lit 5 1)) in
      let bounds = clamp-bounds x (o.le_trans _ _ _ low high) in
      let clamped = min (lit 15 1) (max (lit 5 1) x) in
      within-if (le close nought) clamped
        (
          subst (λ y. le y (round4 clamped) ≡ true) round_low (r.round_le _ _ (bounds.0)),
          subst (λ y. le (round4 clamped) y ≡ true) round_high (r.round_le _ _ (bounds.1)),
        )
        (low, high)
