-- ===== src/Float/Defs.antt =====
-- The operations of `float`, and the builtins of Python that are written with them.
use pyharmonics_gpt.Prelude.{ℕ, ◌≡◌, Bool, true, if◌then◌else◌}

pub record Float (F : Type 0) : Type 0 where
  pub lt : F → F → Bool
  pub le : F → F → Bool
  pub add : F → F → F
  pub sub : F → F → F
  pub mul : F → F → F
  pub div : F → F → F
  -- `lit n k` is the literal n / 10^k, and `lit n 0` also the float of a whole number
  pub lit : ℕ → ℕ → F

module _ {F : Type 0} ⦃d : Float F⦄ where
  abbrev pub lt : F → F → Bool
  lt = d.lt

  abbrev pub le : F → F → Bool
  le = d.le

  -- `x > y` and `x >= y`
  abbrev pub gt : F → F → Bool
  gt x y = d.lt y x

  abbrev pub ge : F → F → Bool
  ge x y = d.le y x

  abbrev pub add : F → F → F
  add = d.add

  abbrev pub sub : F → F → F
  sub = d.sub

  abbrev pub mul : F → F → F
  mul = d.mul

  abbrev pub div : F → F → F
  div = d.div

  abbrev pub lit : ℕ → ℕ → F
  lit = d.lit

  abbrev pub nought : F
  nought = d.lit 0 0

  abbrev pub neg : F → F
  neg x = d.sub (d.lit 0 0) x

  abbrev pub abs : F → F
  abs x = if d.lt x (d.lit 0 0) then d.sub (d.lit 0 0) x else x

  -- Python's `max(x, y)` and `min(x, y)` return the first argument unless the second is better.
  abbrev pub max : F → F → F
  max x y = if d.lt x y then y else x

  abbrev pub min : F → F → F
  min x y = if d.lt y x then y else x

  -- not NaN
  abbrev pub IsNumber : F → Type 0
  IsNumber x = d.le x x ≡ true
