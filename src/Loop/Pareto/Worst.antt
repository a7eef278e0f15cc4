-- ===== src/Loop/Pareto/Worst.antt =====
-- The worst regime of a candidate.
use mathlib.Core.Option.{some-injective, none-ne-some}
use pyharmonics_gpt.Prelude.{
  IsIn, ◌≡◌, refl, subst, Bool, true, false, arith, inl, inr, none, some, List, [], ◌∷◌,
  if◌then◌else◌,
}
use pyharmonics_gpt.Float.{Float, IsOrdered, IsNumber, lt, le, min, min-le_left, le_of_not_lt}
use pyharmonics_gpt.Dict.{Dict}
use pyharmonics_gpt.Loop.Checker.{RegimeStats}
use pyharmonics_gpt.Loop.Pareto.{regime_sharpes, least_from, worst_regime_sharpe}

module _ {F : Type 0} ⦃d : Float F⦄ where
  abbrev pub IsBelow : F → List F → Type 0
  IsBelow x [] = Unit
  IsBelow x (y ∷ ys) = (le x y ≡ true) × IsBelow x ys

  abbrev pub AreNumbers : List F → Type 0
  AreNumbers [] = Unit
  AreNumbers (y ∷ ys) = IsNumber y × AreNumbers ys

  min-IsNumber : (b : Bool) (x y : F) → IsNumber x → IsNumber y → IsNumber (if b then y else x)
  min-IsNumber true x y hx hy = hy
  min-IsNumber false x y hx hy = hx

  -- the least is one of the two, or in the rest
  pub least-IsIn : (best : F) (xs : List F) → IsIn (least_from best xs) (best ∷ xs)
  least-IsIn best [] = inl refl
  least-IsIn best (x ∷ xs) = chosen (lt x best) (least-IsIn (min best x) xs)
    where
      chosen :
          (b : Bool)
          → IsIn (least_from (min best x) xs) ((if b then x else best) ∷ xs)
          → IsIn (least_from (min best x) xs) (best ∷ x ∷ xs)
      chosen true (inl e) = inr (inl e)
      chosen false (inl e) = inl e
      chosen b (inr h) = inr (inr h)

  module _ (o : IsOrdered F) where
    min-le_right : (x y : F) → IsNumber x → IsNumber y → le (min x y) y ≡ true
    min-le_right x y hx hy = ground (arith, le_of_not_lt o y x hy hx)

    pub least-IsBelow :
        (best : F) (xs : List F)
        → IsNumber best
        → AreNumbers xs
        → IsBelow (least_from best xs) (best ∷ xs)
    least-IsBelow best [] h hs = (h, tt)
    least-IsBelow best (x ∷ xs) h (hx, hs) =
        let rest = least-IsBelow (min best x) xs (min-IsNumber (lt x best) best x h hx) hs in
        (
          o.le_trans _ _ _ (rest.0) (min-le_left o best x h),
          (o.le_trans _ _ _ (rest.0) (min-le_right best x h hx), rest.1),
        )

    worst-if :
        (sharpes : List F) (w : F)
        → AreNumbers sharpes
        → (elim sharpes [ [] ↦ none | x ∷ xs ↦ some (least_from x xs) ]) ≡ some w
        → IsIn w sharpes × IsBelow w sharpes
    worst-if [] w h e = absurd (none-ne-some w e)
    worst-if (x ∷ xs) w (h, hs) e =
        subst (λ y. IsIn y (x ∷ xs) × IsBelow y (x ∷ xs)) (some-injective _ w e)
          (least-IsIn x xs, least-IsBelow x xs h hs)

    -- Where the Sharpe ratios of the regimes with at least three trades are numbers, the worst regime's
    -- is one of them, and no greater than any.
    pub worst_regime_sharpe-IsBelow :
        (regimes : Dict (RegimeStats F)) (w : F)
        → AreNumbers (regime_sharpes regimes)
        → worst_regime_sharpe regimes ≡ some w
        → IsIn w (regime_sharpes regimes) × IsBelow w (regime_sharpes regimes)
    unfolding worst_regime_sharpe
    worst_regime_sharpe-IsBelow regimes w h e = worst-if (regime_sharpes regimes) w h e
