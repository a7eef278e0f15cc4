-- ===== src/Float/Laws.antt =====
-- What IEEE 754 says of the comparisons, and what follows for `max` and `min`.
use pyharmonics_gpt.Prelude.{ℕ, ◌≡◌, true, false, arith}
use pyharmonics_gpt.Float.Defs.{Float, lt, le, max, min, IsNumber}

-- A comparison with NaN is false, so only the last law is restricted to numbers.
pub record IsOrdered (F : Type 0) ⦃d : Float F⦄ : Type 0 where
  pub le_trans : (x y z : F) → le x y ≡ true → le y z ≡ true → le x z ≡ true
  pub le_of_lt : (x y : F) → lt x y ≡ true → le x y ≡ true
  pub not_le_of_lt : (x y : F) → lt x y ≡ true → le y x ≡ false
  pub lt_of_not_le : (x y : F) → IsNumber x → IsNumber y → le y x ≡ false → lt x y ≡ true
  pub refl_of_le : (x y : F) → le x y ≡ true → (le x x ≡ true) × (le y y ≡ true)
  pub lit_IsNumber : (n k : ℕ) → IsNumber (d.lit n k)

module _ {F : Type 0} ⦃d : Float F⦄ (o : IsOrdered F) where
  pub lt_irrefl : (x : F) → lt x x ≡ false
  lt_irrefl x = ground (arith, o.le_of_lt x x, o.not_le_of_lt x x)

  pub lt_of_lt_of_le : (x y z : F) → lt x y ≡ true → le y z ≡ true → lt x z ≡ true
  lt_of_lt_of_le x y z h k = ground (
    arith,
    o.refl_of_le x y (o.le_of_lt x y h),
    o.refl_of_le y z k,
    o.le_trans y z x k,
    o.not_le_of_lt x y h,
    o.lt_of_not_le x z,
  )

  pub lt_of_le_of_lt : (x y z : F) → le x y ≡ true → lt y z ≡ true → lt x z ≡ true
  lt_of_le_of_lt x y z h k = ground (
    arith,
    o.refl_of_le x y h,
    o.refl_of_le y z (o.le_of_lt y z k),
    o.le_trans z x y,
    o.not_le_of_lt y z k,
    o.lt_of_not_le x z,
  )

  pub le_of_not_lt : (x y : F) → IsNumber x → IsNumber y → lt x y ≡ false → le y x ≡ true
  le_of_not_lt x y hx hy h = ground (arith, o.lt_of_not_le x y)

  pub le-max_left : (x y : F) → IsNumber x → le x (max x y) ≡ true
  le-max_left x y h = ground (arith, o.le_of_lt x y)

  pub min-le_left : (x y : F) → IsNumber x → le (min x y) x ≡ true
  min-le_left x y h = ground (arith, o.le_of_lt y x)
