-- ===== src/Loop/Mutation/Weights.antt =====
-- The renormalisation of a dict of weights.
use pyharmonics_gpt.Prelude.{
  ◌≡◌, ◌∙◌, arith, [], ◌∷◌, String, ℤ, pos, negsuc, ◌⊎◌, inl, inr, Bool-cases, true, some, ◌&&◌,
  ◌+ℤ◌, ◌-ℤ◌,
}
use pyharmonics_gpt.Float.{Float, le, mul, div, nought}
use pyharmonics_gpt.Dict.{Dict}
use pyharmonics_gpt.Config.Tuning.{sum_ℤ, sum_values}
use pyharmonics_gpt.Loop.Mutation.Attempts.{
  Random, values, add_to_last, scale_each, scaled_to, of_int, of_ints, renormalise,
}

add_to_rest :
    (v drift total : ℤ) (rest : ℤ) → rest ≡ total +ℤ drift → v +ℤ rest ≡ (v +ℤ total) +ℤ drift
unfolding ◌+ℤ◌
add_to_rest v drift total rest e = rw e (ground arith)

single : (v drift : ℤ) → (v +ℤ drift) +ℤ pos 0 ≡ (v +ℤ pos 0) +ℤ drift
unfolding ◌+ℤ◌
single v drift = ground arith

sum-add_to_last :
    (drift : ℤ) (k : String) (v : ℤ) (m : Dict ℤ)
    → sum_ℤ (values (add_to_last drift ((k, v) ∷ m))) ≡ sum_ℤ (values ((k, v) ∷ m)) +ℤ drift
unfolding add_to_last sum_ℤ
sum-add_to_last drift k v [] = single v drift
sum-add_to_last drift k v ((j, w) ∷ m) =
    add_to_rest v drift (sum_ℤ (values ((j, w) ∷ m))) _ (sum-add_to_last drift j w m)

back_to : (total target : ℤ) → total +ℤ (target -ℤ total) ≡ target
unfolding ◌+ℤ◌ ◌-ℤ◌
back_to (pos m) (pos n) = ground arith
back_to (pos m) (negsuc n) = ground arith
back_to (negsuc m) (pos n) = ground arith
back_to (negsuc m) (negsuc n) = ground arith

module _ {R F : Type 0} ⦃d : Float F⦄ (rng : Random R F) (round_int : F → ℤ) where
  sum-scaled_to :
      (target : ℤ) (s : F) (k : String) (v : F) (m : Dict F)
      → sum_ℤ (values (scaled_to rng round_int target s ((k, v) ∷ m))) ≡ target
  unfolding scaled_to
  sum-scaled_to target s k v m =
      let factor = div (of_int rng round_int target) s in
      let scaled = scale_each rng round_int factor ((k, v) ∷ m) in
      sum-add_to_last (target -ℤ sum_ℤ (values scaled)) k (round_int (mul v factor))
        (scale_each rng round_int factor m)
      ∙ back_to (sum_ℤ (values scaled)) target

  -- Whatever the weights, and whatever way the products are rounded: a dict that is not empty is left
  -- as it is, if its sum is zero, or its renormalised weights are whole numbers that add up to the target.
  pub renormalise-sums :
      (target : ℤ) (k : String) (v : F) (m : Dict F)
      → let sum = sum_values nought ((k, v) ∷ m) in
        let result = renormalise rng round_int (some target) ((k, v) ∷ m) in
        (((le sum nought && le nought sum) ≡ true) × (result ≡ (k, v) ∷ m))
        ⊎ ((w : Dict ℤ) × (result ≡ of_ints rng round_int w) × (sum_ℤ (values w) ≡ target))
  unfolding renormalise
  renormalise-sums target k v m =
      let sum = sum_values nought ((k, v) ∷ m) in
      elim (Bool-cases (le sum nought && le nought sum)) [
        | inl zero_sum ↦ inl (zero_sum, rw zero_sum)
        | inr other ↦ inr (
          scaled_to rng round_int target sum ((k, v) ∷ m),
          rw other,
          sum-scaled_to target sum k v m,
        )
      ]
