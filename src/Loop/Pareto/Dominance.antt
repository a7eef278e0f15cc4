-- ===== src/Loop/Pareto/Dominance.antt =====
-- `dominates` is a strict partial order on points.
use pyharmonics_gpt.Prelude.{◌≡◌, true, false, arith}
use pyharmonics_gpt.Float.{Float, IsOrdered, lt_irrefl, lt_of_le_of_lt}
use pyharmonics_gpt.Loop.Pareto.{ParetoPoint, objectives, all_ge, any_gt, dominates}

module _ {F : Type 0} ⦃d : Float F⦄ (o : IsOrdered F) where
  -- No point dominates itself.
  pub dominates_irrefl : (a : ParetoPoint F) → dominates a a ≡ false
  unfolding dominates objectives
  dominates_irrefl a = grind (arith, lt_irrefl o)

  abbrev Quad : Type 0
  Quad = F × F × F × F

  all_ge_trans : (x y z : Quad) → all_ge x y ≡ true → all_ge y z ≡ true → all_ge x z ≡ true
  unfolding all_ge
  all_ge_trans (x1, x2, x3, x4) (y1, y2, y3, y4) (z1, z2, z3, z4) h k =
      ground
        (arith, o.le_trans z1 y1 x1, o.le_trans z2 y2 x2, o.le_trans z3 y3 x3, o.le_trans z4 y4 x4)

  -- One strict improvement survives a further step that loses nothing.
  any_gt_trans : (x y z : Quad) → any_gt x y ≡ true → all_ge y z ≡ true → any_gt x z ≡ true
  unfolding all_ge any_gt
  any_gt_trans (x1, x2, x3, x4) (y1, y2, y3, y4) (z1, z2, z3, z4) h k = ground (
    arith,
    lt_of_le_of_lt o z1 y1 x1,
    lt_of_le_of_lt o z2 y2 x2,
    lt_of_le_of_lt o z3 y3 x3,
    lt_of_le_of_lt o z4 y4 x4,
  )

  -- Where the comparisons of numbers are ordered, dominance is transitive.
  pub dominates_trans :
      (a b c : ParetoPoint F) → dominates a b ≡ true → dominates b c ≡ true → dominates a c ≡ true
  unfolding dominates
  dominates_trans a b c h k =
      let x = objectives a in
      let y = objectives b in
      let z = objectives c in ground (arith, all_ge_trans x y z, any_gt_trans x y z)

  pub dominates_asymm : (a b : ParetoPoint F) → dominates a b ≡ true → dominates b a ≡ false
  dominates_asymm a b h = ground (arith, dominates_trans a b a h, dominates_irrefl a)
