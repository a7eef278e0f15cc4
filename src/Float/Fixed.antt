-- ===== src/Float/Fixed.antt =====
-- Fixed-point numbers in thousandths: a concrete `Float`, at which the theorems are exercised.
use pyharmonics_gpt.Prelude.{◌*◌, ◌/◌, ◌^◌, arith, ℤ, pos, ◌+ℤ◌, ◌-ℤ◌, ◌*ℤ◌, ltb_ℤ, leb_ℤ, quot_ℤ}
use pyharmonics_gpt.Float.Defs.{Float}
use pyharmonics_gpt.Float.Laws.{IsOrdered}

unfoldable pub milli_add : ℤ → ℤ → ℤ
unfolding ◌+ℤ◌
milli_add x y = x +ℤ y

unfoldable pub milli_sub : ℤ → ℤ → ℤ
unfolding ◌-ℤ◌
milli_sub x y = x -ℤ y

unfoldable pub milli_mul : ℤ → ℤ → ℤ
unfolding ◌*ℤ◌
milli_mul x y = quot_ℤ (x *ℤ y) (pos 1000)

unfoldable pub milli_div : ℤ → ℤ → ℤ
unfolding ◌*ℤ◌
milli_div x y = quot_ℤ (x *ℤ pos 1000) y

instance abbrev pub milli_float : Float ℤ
milli_float = record {
  lt = ltb_ℤ;
  le = leb_ℤ;
  add = milli_add;
  sub = milli_sub;
  mul = milli_mul;
  div = milli_div;
  lit = λ n k. pos (n * 1000 / 10 ^ k);
}

pub Milli-IsOrdered : IsOrdered ℤ
Milli-IsOrdered = record {
  le_trans = λ x y z. ground arith;
  le_of_lt = λ x y. ground arith;
  not_le_of_lt = λ x y. ground arith;
  lt_of_not_le = λ x y. ground arith;
  refl_of_le = λ x y. ground arith;
  lit_IsNumber = λ n k. ground arith;
}
