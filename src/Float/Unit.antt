-- ===== src/Float/Unit.antt =====
-- What IEEE 754 says of sums and products of scores: rounding is monotone, and the literals of the
-- bounds are exact.
use pyharmonics_gpt.Prelude.{
  ℕ, ◌*◌, ◌/◌, ◌≤◌, ◌≡◌, refl, Bool, true, ◌&&◌, arith, ℤ, pos, negsuc, ◌*ℤ◌, ◌+ℤ◌, ◌-ℤ◌,
}
use pyharmonics_gpt.Float.Defs.{Float, le, add, mul, neg, nought, lit}
use pyharmonics_gpt.Float.Fixed.{milli_float, milli_mul, milli_add, milli_sub}

-- `0.0 <= v <= 1.0`
abbrev pub in_unit : {F : Type 0} ⦃d : Float F⦄ → F → Bool
in_unit v = le nought v && le v (lit 1 0)

pub record IsUnitLaw (F : Type 0) ⦃d : Float F⦄ : Type 0 where
  pub mul_unit : (x y : F) → in_unit x ≡ true → in_unit y ≡ true → in_unit (mul x y) ≡ true
  pub add_unit :
      (x y : F)
      → in_unit x ≡ true
      → in_unit y ≡ true
      → (le nought (add x y) && le (add x y) (lit 2 0)) ≡ true
  pub half_unit : in_unit (lit {F = F} 5 1) ≡ true
  pub neg_ten_le : le (neg (lit {F = F} 10 0)) nought ≡ true
  pub two_le_ten : le (lit {F = F} 2 0) (lit 10 0) ≡ true

-- a product of thousandths
scaled_le : (a b : ℕ) → a ≤ 1000 → b ≤ 1000 → a * b / 1000 ≤ 1000
scaled_le a b ha hb = grind arith

milli_mul_pos : (a b : ℕ) → milli_mul (pos a) (pos b) ≡ pos (a * b / 1000)
unfolding milli_mul ◌*ℤ◌
milli_mul_pos a b = ground arith

milli_mul_unit : (x y : ℤ) → in_unit x ≡ true → in_unit y ≡ true → in_unit (milli_mul x y) ≡ true
milli_mul_unit (pos a) (pos b) ha hb =
    ground (arith, scaled_le a b (ground arith) (ground arith), milli_mul_pos a b)
milli_mul_unit (negsuc a) y ha hb = ground arith
milli_mul_unit (pos a) (negsuc b) ha hb = ground arith

pub Milli-IsUnitLaw : IsUnitLaw ℤ
unfolding milli_add milli_sub ◌+ℤ◌ ◌-ℤ◌
Milli-IsUnitLaw = record {
  mul_unit = milli_mul_unit;
  add_unit = λ x y hx hy. ground arith;
  half_unit = refl;
  neg_ten_le = refl;
  two_le_ten = refl;
}
