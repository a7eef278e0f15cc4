-- ===== src/Domain/Signals/Targets.antt =====
-- The order of the three take-profit prices.
use mathlib.Core.Option.{some-injective, none-ne-some}
use pyharmonics_gpt.Prelude.{◌≡◌, sym, subst, Bool, true, false, Option, none, some, if◌then◌else◌}
use pyharmonics_gpt.Float.{Float, IsOrdered, IsNumber, le, add, sub, mul, abs, nought}
use pyharmonics_gpt.Float.Rounding.{IsRounded, abs_nonneg}
use pyharmonics_gpt.Domain.Signals.{Candidate, Tuning, a_price, compute_targets}

module _ {F : Type 0} ⦃d : Float F⦄ where
  -- three prices that rise for a long and fall for a short
  abbrev pub Advances : Bool → F × F × F → Type 0
  Advances bullish (one, two, three) =
      ((if bullish then le one two else le two one) ≡ true)
      × ((if bullish then le two three else le three two) ≡ true)

  module _ (o : IsOrdered F) {round8 : F → F} (r : IsRounded F round8) where
    abbrev price : Bool → F → F → F → F
    price bullish entry span fib =
        round8 (if bullish then add entry (mul fib span) else sub entry (mul fib span))

    leg-IsNumber :
        (bullish : Bool) (entry span fib : F)
        → IsNumber (price bullish entry span fib)
        → IsNumber (mul fib span)
    leg-IsNumber true entry span fib h = (r.add_number _ _ (r.round_number _ h)).1
    leg-IsNumber false entry span fib h = (r.sub_number _ _ (r.round_number _ h)).1

    price-le :
        (bullish : Bool) (entry span fib fib2 : F)
        → le nought span ≡ true
        → le fib fib2 ≡ true
        → IsNumber (price bullish entry span fib)
        → IsNumber (price bullish entry span fib2)
        → (if bullish
            then le (price bullish entry span fib) (price bullish entry span fib2)
            else le (price bullish entry span fib2) (price bullish entry span fib))
          ≡ true
    price-le true entry span fib fib2 hs h n n2 =
        let legs =
          r.mul_le_mul fib fib2 span (leg-IsNumber true entry span fib n)
            (leg-IsNumber true entry span fib2 n2) h hs in
        r.round_le _ _ (r.add_le_add entry _ _ (r.round_number _ n) (r.round_number _ n2) legs)
    price-le false entry span fib fib2 hs h n n2 =
        let legs =
          r.mul_le_mul fib fib2 span (leg-IsNumber false entry span fib n)
            (leg-IsNumber false entry span fib2 n2) h hs in
        r.round_le _ _ (r.sub_le_sub entry _ _ (r.round_number _ n) (r.round_number _ n2) legs)

    targets-if :
        (t : Tuning F) (bullish : Bool) (entry : F) (a : Option F) (result : F × F × F)
        → le t.fib_tp1 t.fib_tp2 ≡ true
        → le t.fib_tp2 t.fib_tp3 ≡ true
        → IsNumber (result.0)
        → IsNumber (result.1)
        → IsNumber (result.2)
        → (elim a [
          | none ↦ none
          | some a ↦ some (
            price bullish entry (abs (sub a entry)) t.fib_tp1,
            price bullish entry (abs (sub a entry)) t.fib_tp2,
            price bullish entry (abs (sub a entry)) t.fib_tp3,
          )
        ])
          ≡ some result
        → Advances bullish result
    targets-if t bullish entry none result h12 h23 n1 n2 n3 e = absurd (none-ne-some result e)
    targets-if t bullish entry (some a) result h12 h23 n1 n2 n3 e =
        let span = abs (sub a entry) in
        let three : F × F × F = (
          price bullish entry span t.fib_tp1,
          price bullish entry span t.fib_tp2,
          price bullish entry span t.fib_tp3,
        ) in
        let same : three ≡ result = some-injective three result e in
        let m1 = subst (λ p. IsNumber (p.0)) (sym same) n1 in
        let m2 = subst (λ p. IsNumber (p.1)) (sym same) n2 in
        let m3 = subst (λ p. IsNumber (p.2)) (sym same) n3 in
        let span_nonneg =
          abs_nonneg o r (sub a entry)
            ((r.mul_number _ _ (leg-IsNumber bullish entry span t.fib_tp1 m1)).1) in
        subst (Advances bullish) same (
          price-le bullish entry span t.fib_tp1 t.fib_tp2 span_nonneg h12 m1 m2,
          price-le bullish entry span t.fib_tp2 t.fib_tp3 span_nonneg h23 m2 m3,
        )

    -- With the Fibonacci ratios in order, the three targets that are returned, where they are numbers,
    -- rise for a long and fall for a short, rounding included.
    pub compute_targets-Advances :
        (t : Tuning F) (c : Candidate F) (entry : F) (result : F × F × F)
        → le t.fib_tp1 t.fib_tp2 ≡ true
        → le t.fib_tp2 t.fib_tp3 ≡ true
        → IsNumber (result.0)
        → IsNumber (result.1)
        → IsNumber (result.2)
        → compute_targets round8 t c entry ≡ some result
        → Advances c.bullish result
    unfolding compute_targets
    compute_targets-Advances t c entry result h12 h23 n1 n2 n3 e =
        targets-if t c.bullish entry (a_price c) result h12 h23 n1 n2 n3 e
