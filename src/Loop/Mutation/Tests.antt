-- ===== src/Loop/Mutation/Tests.antt =====
-- A generator that always draws the deviation itself and samples the first member, in thousandths.
use pyharmonics_gpt.Prelude.{
  ℕ, suc, ◌≡◌, refl, true, false, ◌&&◌, ◌⊎◌, inl, none, some, List, [], ◌∷◌, ℤ, pos, ◌+ℤ◌, ◌-ℤ◌,
  ◌*ℤ◌, quot_ℤ,
}
use pyharmonics_gpt.Float.{le}
use pyharmonics_gpt.Float.Fixed.{milli_float, milli_add, milli_sub, milli_mul, milli_div}
use pyharmonics_gpt.Dict.{Dict, lookup, contains}
use pyharmonics_gpt.Config.Tuning.{
  TuningConstants, is_member, lacks_member, lacks_key, sum_ℤ, sum_values, standard_out_of_bounds,
  hard_checks, soft_checks, window_checks, int_fields, post_init, tuning,
}
use pyharmonics_gpt.Config.Tuning.Fields.{float}
use pyharmonics_gpt.Loop.Mutation.Attempts.{
  Member, Random, Builtins, values, of_ints, add_to_last, scaled_to, renormalise,
}
use pyharmonics_gpt.Loop.Mutation.Clusters.{mutate_all_clusters}
use pyharmonics_gpt.Loop.Mutation.DefaultMap.{default_cluster_map}
use pyharmonics_gpt.Loop.Mutation.Acceptance.{GivesAccepted, SamplesMembers, AreIn}
use pyharmonics_gpt.Loop.Mutation.Weights.{renormalise-sums}
use pyharmonics_gpt.Loop.Mutation.DefaultFits.{mutate_all_clusters-GivesAccepted}

abbrev first_of : {A : Type 0} → List A → List A
first_of [] = []
first_of (x ∷ xs) = x ∷ []

abbrev head_of : {A : Type 0} → A → List A → A
head_of default [] = default
head_of default (x ∷ xs) = x

abbrev counter : Random ℕ ℤ
counter = record {
  gauss = λ sigma r. (sigma, suc r);
  random = λ r. (pos 0, suc r);
  choice = λ xs r. (head_of (float (pos 0)) xs, suc r);
  choice_of_name = λ xs r. (head_of "" xs, suc r);
  sample = λ ms n r. (first_of ms, suc r);
}

-- towards zero
abbrev whole : ℤ → ℤ
whole x = quot_ℤ x (pos 1000)

abbrev finite : Builtins ℤ
finite = record { same = λ v w. false; is_infinite = λ x. false }

counter_samples : SamplesMembers counter whole finite
counter_samples ms n r = first_is_in ms
  where
    first_is_in : (ms : List (Member ℤ)) → AreIn (first_of ms) ms
    first_is_in [] = tt
    first_is_in (m ∷ ms) = (inl refl, tt)

abbrev live : TuningConstants ℤ
live = tuning

live_is_accepted : post_init live ≡ none
unfolding post_init hard_checks soft_checks window_checks int_fields lacks_member lacks_key
    is_member sum_ℤ sum_values standard_out_of_bounds contains lookup milli_add milli_sub ◌+ℤ◌ ◌-ℤ◌
live_is_accepted = refl

mutate_all_clusters-GivesAccepted_example :
    GivesAccepted finite
      (mutate_all_clusters counter whole finite default_cluster_map live (pos 1000) 0)
mutate_all_clusters-GivesAccepted_example =
    mutate_all_clusters-GivesAccepted counter whole finite counter_samples live (pos 1000) 0
      live_is_accepted

thirds :
    scaled_to counter whole (pos 100) (pos 3000) (("rsi", pos 1000) ∷ ("macd", pos 2000) ∷ [])
    ≡ ("rsi", pos 33) ∷ ("macd", pos 67) ∷ []
unfolding scaled_to add_to_last sum_ℤ milli_mul milli_div ◌*ℤ◌ ◌+ℤ◌ ◌-ℤ◌
thirds = refl

renormalise-sums_example :
    let sum = sum_values (pos 0) (("rsi", pos 30_000) ∷ ("macd", pos 30_000) ∷ []) in
    let result =
      renormalise counter whole
        (some (pos 100))
        (("rsi", pos 30_000) ∷ ("macd", pos 30_000) ∷ []) in
    (((le sum (pos 0) && le (pos 0) sum) ≡ true)
      × (result ≡ (("rsi", pos 30_000) ∷ ("macd", pos 30_000) ∷ [])))
    ⊎ ((w : Dict ℤ) × (result ≡ of_ints counter whole w) × (sum_ℤ (values w) ≡ pos 100))
renormalise-sums_example =
    renormalise-sums counter whole (pos 100) "rsi" (pos 30_000) (("macd", pos 30_000) ∷ [])
