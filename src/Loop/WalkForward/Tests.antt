-- ===== src/Loop/WalkForward/Tests.antt =====
-- Four quarters from 2024, and a run of two quarters of which the last fails.
use pyharmonics_gpt.Prelude.{
  ℕ, ◌≡◌, refl, true, false, none, some, List, [], ◌∷◌, String, map, ℤ, pos, negsuc,
}
use pyharmonics_gpt.Float.Fixed.{milli_float}
use pyharmonics_gpt.Loop.WalkForward.{
  Blob, CandidateResult, list_quarters, quarters_from, aggregate, walk_forward, run_quarters,
  find_quarter, collapses,
}
use pyharmonics_gpt.Loop.WalkForward.Aggregates.{walk_forward-collapse}

five_quarters :
    map {B = ℕ × ℕ} (λ x. (x.year, x.q)) (list_quarters 2024 5)
    ≡ (2024, 1) ∷ (2024, 2) ∷ (2024, 3) ∷ (2024, 4) ∷ (2025, 1) ∷ []
unfolding list_quarters quarters_from
five_quarters = refl

abbrev good : Blob ℤ
good = record {
  candidate_id = none;
  sharpe = some (pos 1200);
  calmar = none;
  trades_count = some 40;
}

abbrev bad : Blob ℤ
bad = record {
  candidate_id = none;
  sharpe = some (negsuc 199);
  calmar = none;
  trades_count = some 40;
}

abbrev two_quarters : List (String × Blob ℤ)
two_quarters = ("2024-Q1", good) ∷ ("2024-Q2", bad) ∷ []

abbrev ran : Blob ℤ → CandidateResult ℤ
ran m = record { decision = "completed"; metrics = some m }

abbrev failed : CandidateResult ℤ
failed = record { decision = "error"; metrics = none }

failure_is_no_collapse :
    (walk_forward "c1" (("2024-Q1", ran bad) ∷ ("2024-Q2", failed) ∷ [])).oos_collapse ≡ false
unfolding walk_forward run_quarters aggregate find_quarter collapses
failure_is_no_collapse = refl

walk_forward-collapse_example :
    (walk_forward "c1" (("2024-Q1", ran good) ∷ ("2024-Q2", ran bad) ∷ [])).oos_collapse ≡ true
unfolding collapses
walk_forward-collapse_example =
    walk_forward-collapse "c1" (("2024-Q1", ran good) ∷ ("2024-Q2", ran bad) ∷ [])
