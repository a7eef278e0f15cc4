-- ===== src/Float/Rounding.antt =====
-- What IEEE 754 says of sums, differences and products: a result that is a number has operands that
-- are, and rounding to a float, as well as Python's `round`, keeps the order. An infinite result is a
-- number here, so that nothing is asked of the size of the operands.
use pyharmonics_gpt.Prelude.{
  ℕ, ◌+◌, ◌*◌, ◌/◌, ◌≤◌, ◌≡◌, refl, Bool, true, false, arith, ℤ, pos, negsuc, ◌*ℤ◌, ◌+ℤ◌, ◌-ℤ◌,
  if◌then◌else◌,
}
use pyharmonics_gpt.Float.Defs.{Float, lt, le, add, sub, mul, abs, nought, lit, IsNumber}
use pyharmonics_gpt.Float.Laws.{IsOrdered, le_of_not_lt}
use pyharmonics_gpt.Float.Fixed.{milli_float, milli_mul, milli_add, milli_sub}

pub record IsRounded (F : Type 0) ⦃d : Float F⦄ (round : F → F) : Type 0 where
  pub add_number : (x y : F) → IsNumber (add x y) → IsNumber x × IsNumber y
  pub sub_number : (x y : F) → IsNumber (sub x y) → IsNumber x × IsNumber y
  pub mul_number : (x y : F) → IsNumber (mul x y) → IsNumber x × IsNumber y
  pub round_number : (x : F) → IsNumber (round x) → IsNumber x
  pub le_add : (x y : F) → IsNumber (add x y) → le nought y ≡ true → le x (add x y) ≡ true
  pub sub_le : (x y : F) → IsNumber (sub x y) → le nought y ≡ true → le (sub x y) x ≡ true
  pub sub_nonneg : (x y : F) → IsNumber (sub x y) → le y x ≡ true → le nought (sub x y) ≡ true
  pub mul_nonneg :
      (x y : F)
      → IsNumber (mul x y)
      → le nought x ≡ true
      → le nought y ≡ true
      → le nought (mul x y) ≡ true
  pub add_le_add :
      (x y z : F)
      → IsNumber (add x y)
      → IsNumber (add x z)
      → le y z ≡ true
      → le (add x y) (add x z) ≡ true
  pub sub_le_sub :
      (x y z : F)
      → IsNumber (sub x y)
      → IsNumber (sub x z)
      → le y z ≡ true
      → le (sub x z) (sub x y) ≡ true
  pub mul_le_mul :
      (x y z : F)
      → IsNumber (mul x z)
      → IsNumber (mul y z)
      → le x y ≡ true
      → le nought z ≡ true
      → le (mul x z) (mul y z) ≡ true
  pub round_le : (x y : F) → le x y ≡ true → le (round x) (round y) ≡ true
  pub lit_nonneg : (n k : ℕ) → le {F = F} nought (lit n k) ≡ true

module _ {F : Type 0} ⦃d : Float F⦄ {round : F → F} (o : IsOrdered F) (r : IsRounded F round) where
  abs-if :
      (x : F) (b : Bool)
      → lt x nought ≡ b
      → IsNumber (if b then sub nought x else x)
      → le nought (if b then sub nought x else x) ≡ true
  abs-if x true e h = r.sub_nonneg nought x h (o.le_of_lt x nought e)
  abs-if x false e h = le_of_not_lt o x nought h (o.lit_IsNumber 0 0) e

  pub abs_nonneg : (x : F) → IsNumber (abs x) → le nought (abs x) ≡ true
  abs_nonneg x h = abs-if x (lt x nought) refl h

milli_mul_nonneg :
    (x y : ℤ) → le nought x ≡ true → le nought y ≡ true → le nought (milli_mul x y) ≡ true
unfolding milli_mul ◌*ℤ◌
milli_mul_nonneg (pos a) (pos b) hx hy = ground arith
milli_mul_nonneg (pos a) (negsuc b) hx hy = ground arith
milli_mul_nonneg (negsuc a) y hx hy = ground arith

scaled_le : (a b c : ℕ) → a ≤ b → a * c / 1000 ≤ b * c / 1000
scaled_le a b c h = grind arith

milli_mul_le :
    (x y z : ℤ) → le x y ≡ true → le nought z ≡ true → le (milli_mul x z) (milli_mul y z) ≡ true
unfolding milli_mul ◌*ℤ◌
milli_mul_le (pos a) (pos b) (pos c) h hz = ground (arith, scaled_le a b c (ground arith))
milli_mul_le (negsuc a) (pos b) (pos c) h hz = ground arith
milli_mul_le (negsuc a) (negsuc b) (pos c) h hz =
    ground (arith, scaled_le (b + 1) (a + 1) c (ground arith))
milli_mul_le (pos a) (negsuc b) (pos c) h hz = ground arith
milli_mul_le x y (negsuc c) h hz = ground arith

pub Milli-IsRounded : IsRounded ℤ (λ x. x)
unfolding milli_add milli_sub ◌+ℤ◌ ◌-ℤ◌
Milli-IsRounded = record {
  add_number = λ x y h. (ground arith, ground arith);
  sub_number = λ x y h. (ground arith, ground arith);
  mul_number = λ x y h. (ground arith, ground arith);
  round_number = λ x h. h;
  le_add = λ x y h k. ground arith;
  sub_le = λ x y h k. ground arith;
  sub_nonneg = λ x y h k. ground arith;
  mul_nonneg = λ x y h hx hy. milli_mul_nonneg x y hx hy;
  add_le_add = λ x y z h k e. ground arith;
  sub_le_sub = λ x y z h k e. ground arith;
  mul_le_mul = λ x y z h k e hz. milli_mul_le x y z e hz;
  round_le = λ x y h. h;
  lit_nonneg = λ n k. ground arith;
}
