-- ===== src/Loop/Mutation/Clusters.antt =====
-- `mutate_field`, `mutate_cluster` and what is made of them, app/loop/mutation.py.
use pyharmonics_gpt.Prelude.{
  ℕ, zero, suc, ◌+◌, Option, none, some, List, [], ◌∷◌, map, ltb, length, String, ℤ, if◌then◌else◌,
}
use pyharmonics_gpt.Float.{Float, lit}
use pyharmonics_gpt.Dict.{Dict, lookup}
use pyharmonics_gpt.Config.Tuning.{TuningConstants, tuning}
use pyharmonics_gpt.Loop.Mutation.Attempts.{
  Kind, unknown, Member, Random, Builtins, Attempt, made, unchanged, failed, Outcome, ok, ◌>>=◌,
  apply_one_mutation,
}

module _ {R F : Type 0} ⦃d : Float F⦄ (rng : Random R F) (round_int : F → ℤ) where
  -- the loop of `mutate_field`, with the attempts that are left
  unfoldable pub attempts :
      Builtins F → ℕ → Member F → TuningConstants F → F → R → Outcome F (TuningConstants F × R)
  unfolding apply_one_mutation
  attempts py zero m t sigma_scale r = ok (t, r)
  attempts py (suc n) m t sigma_scale r =
      let (attempt, r') = apply_one_mutation rng round_int py m t sigma_scale r in
      elim attempt [
        | made t' ↦ ok (t', r')
        | unchanged ↦ ok (t, r')
        | failed ↦ attempts py n m t sigma_scale r'
        | Attempt.index_error ↦ Outcome.index_error
        | Attempt.overflow x ↦ Outcome.overflow x
        | Attempt.no_attribute name ↦ Outcome.no_attribute name
        | Attempt.outside name ↦ Outcome.outside name
      ]

  -- `kwargs.get("max_retries", 5)`
  abbrev pub retries : Option ℕ → ℕ
  retries none = 5
  retries (some n) = n

  -- the error of `kind not in _VALID_KINDS`
  abbrev pub invalid_kind : Kind F → Option String
  invalid_kind (unknown kind) = some kind
  invalid_kind kind = none

  unfoldable pub mutate_field :
      Builtins F → Member F → TuningConstants F → F → R → Outcome F (TuningConstants F × R)
  unfolding attempts
  mutate_field py m t sigma_scale r = elim (invalid_kind m.kind) [
    | some kind ↦ Outcome.unknown_kind kind
    | none ↦ attempts py (retries m.max_retries + 1) m t sigma_scale r
  ]

  -- the loop over the chosen members
  unfoldable pub mutate_each :
      Builtins F → List (Member F) → TuningConstants F → F → R → Outcome F (TuningConstants F × R)
  unfolding mutate_field
  mutate_each py [] t sigma_scale r = ok (t, r)
  mutate_each py (m ∷ chosen) t sigma_scale r = do
    (t', r') ← mutate_field py m t sigma_scale r
    mutate_each py chosen t' sigma_scale r'

  abbrev pub members_of : String → Dict (List (Member F)) → List (Member F)
  unfolding lookup
  members_of cluster cm = elim (lookup cluster cm) [ none ↦ [] | some members ↦ members ]

  -- `min(1 if n_mutations is None else n_mutations, len(members))`
  abbrev pub mutation_count : Option ℕ → List (Member F) → ℕ
  mutation_count none members = if ltb (length members) 1 then length members else 1
  mutation_count (some n) members = if ltb (length members) n then length members else n

  unfoldable pub mutate_cluster :
      Builtins F
      → Dict (List (Member F))
      → TuningConstants F
      → String
      → F
      → Option ℕ
      → R
      → Outcome F (TuningConstants F × R)
  unfolding mutate_each
  mutate_cluster py cm t cluster sigma_scale n_mutations r = elim (members_of cluster cm) [
    | [] ↦ ok (t, r)
    | m ∷ members ↦
        let (chosen, r') = rng.sample (m ∷ members) (mutation_count n_mutations (m ∷ members)) r in
        mutate_each py chosen t sigma_scale r'
  ]

  -- the loop over the clusters of the map
  unfoldable pub mutate_clusters :
      Builtins F
      → Dict (List (Member F))
      → List String
      → TuningConstants F
      → F
      → R
      → Outcome F (TuningConstants F × R)
  unfolding mutate_cluster
  mutate_clusters py cm [] t sigma_scale r = ok (t, r)
  mutate_clusters py cm (cluster ∷ clusters) t sigma_scale r = do
    (t', r') ← mutate_cluster py cm t cluster sigma_scale none r
    mutate_clusters py cm clusters t' sigma_scale r'

  abbrev pub all_clusters : Dict (List (Member F)) → List String
  all_clusters cm = map (λ c. c.0) cm

  unfoldable pub mutate_all_clusters :
      Builtins F
      → Dict (List (Member F))
      → TuningConstants F
      → F
      → R
      → Outcome F (TuningConstants F × R)
  unfolding mutate_clusters
  mutate_all_clusters py cm t sigma_scale r =
      mutate_clusters py cm (all_clusters cm) t sigma_scale r

  -- from the parent, or from TUNING; the state of the generator stands for the seed
  unfoldable pub random_child :
      Builtins F
      → Dict (List (Member F))
      → Option (TuningConstants F)
      → R
      → Outcome F (TuningConstants F × R)
  unfolding mutate_cluster
  random_child py cm parent r =
      let base : TuningConstants F = elim parent [ none ↦ tuning | some t ↦ t ] in
      let (cluster, r') = rng.choice_of_name (all_clusters cm) r in
      mutate_cluster py cm base cluster (lit 1 0) none r'

  -- the names of the fields of a cluster
  abbrev pub cluster_fields : String → Dict (List (Member F)) → List String
  unfolding lookup
  cluster_fields cluster cm = map (λ m. m.name) (members_of cluster cm)
