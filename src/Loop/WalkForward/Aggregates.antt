-- ===== src/Loop/WalkForward/Aggregates.antt =====
-- What the aggregate says of the runs.
use pyharmonics_gpt.Prelude.{
  IsIn, ◌≡◌, refl, ◌∙◌, Bool, false, arith, ◌⊎◌, inl, inr, Option, none, some, List, [], ◌∷◌,
  String, str_eq, if◌then◌else◌,
}
use pyharmonics_gpt.Float.{Float, IsOrdered, nought}
use pyharmonics_gpt.Loop.Pareto.Worst.{IsBelow, AreNumbers, least-IsIn, least-IsBelow}
use pyharmonics_gpt.Loop.WalkForward.{
  or_else, Blob, CandidateResult, ratios, find_quarter, oos_metrics_of, collapses, no_metrics,
  aggregate, run_quarters, last_quarter, walk_forward,
}

module _ {F : Type 0} ⦃d : Float F⦄ where
  -- the metrics of the runs of a quarter that ended without an error, in order
  abbrev pub answers : String → List (String × CandidateResult F) → List (Blob F)
  answers oos [] = []
  answers oos ((q, r) ∷ runs) =
      let rest = answers oos runs in
      if str_eq r.decision "error"
      then rest
      else if str_eq q oos
      then or_else r.metrics no_metrics ∷ rest
      else rest

  abbrev pub first_collapses : List (Blob F) → Bool
  first_collapses [] = false
  first_collapses (m ∷ ms) = collapses m

  abbrev pub collapse_of : Option String → List (String × CandidateResult F) → Bool
  collapse_of none runs = false
  collapse_of (some oos) runs = first_collapses (answers oos runs)

  flag_of : Option (Blob F) → Bool
  flag_of oos = elim oos [ none ↦ false | some b ↦ collapses b ]

  find_quarter-answers :
      (oos candidate_id : String) (runs : List (String × CandidateResult F))
      → flag_of (find_quarter oos (run_quarters candidate_id runs))
        ≡ first_collapses (answers oos runs)
  unfolding find_quarter run_quarters flag_of collapses
  find_quarter-answers oos candidate_id [] = refl
  find_quarter-answers oos candidate_id ((q, r) ∷ runs) =
      ground (arith, find_quarter-answers oos candidate_id runs)

  aggregate-flag :
      (oos : Option String) (per_quarter : List (String × Blob F))
      → (aggregate per_quarter oos).oos_collapse ≡ flag_of (oos_metrics_of oos per_quarter)
  unfolding aggregate flag_of find_quarter
  aggregate-flag none [] = refl
  aggregate-flag (some oos) [] = refl
  aggregate-flag oos ((q, m) ∷ rest) = refl

  -- Collapse is flagged exactly if a run of the last quarter ended without an error and the first such
  -- run has no Sharpe ratio, a negative one, or fewer than 15 trades; an error in that quarter alone
  -- flags nothing.
  pub walk_forward-collapse :
      (candidate_id : String) (runs : List (String × CandidateResult F))
      → (walk_forward candidate_id runs).oos_collapse ≡ collapse_of (last_quarter runs) runs
  unfolding walk_forward flag_of
  walk_forward-collapse candidate_id runs =
      aggregate-flag (last_quarter runs) (run_quarters candidate_id runs)
      ∙ by_last (last_quarter runs)
    where
      by_last :
          (oos : Option String)
          → flag_of (oos_metrics_of oos (run_quarters candidate_id runs)) ≡ collapse_of oos runs
      by_last none = refl
      by_last (some oos) = find_quarter-answers oos candidate_id runs

  -- Where the Sharpe ratios of the quarters that ran are numbers, the worst is no greater than any, and
  -- it is one of them if there are any.
  pub aggregate-worst :
      (o : IsOrdered F) (per_quarter : List (String × Blob F)) (oos_quarter : Option String)
      → AreNumbers (ratios (λ b. b.sharpe) per_quarter)
      → let worst = (aggregate per_quarter oos_quarter).worst_quarter_sharpe in
        IsBelow worst (ratios (λ b. b.sharpe) per_quarter)
        × ((per_quarter ≡ []) ⊎ IsIn worst (ratios (λ b. b.sharpe) per_quarter))
  unfolding aggregate
  aggregate-worst o [] oos_quarter h = (tt, inl refl)
  aggregate-worst o ((q, m) ∷ rest) oos_quarter (h, hs) =
      let sharpes = ratios (λ b. b.sharpe) rest in
      (
        least-IsBelow o (or_else m.sharpe nought) sharpes h hs,
        inr (least-IsIn (or_else m.sharpe nought) sharpes),
      )
