-- ===== src/Loop/MakerChecker/Tests.antt =====
-- The maker-checker stage at one candidate, in thousandths.
use pyharmonics_gpt.Prelude.{ℕ, ◌≡◌, refl, true, none, some, [], ◌∷◌, str_eq, ℤ, pos, inl, inr}
use pyharmonics_gpt.Float.{gt}
use pyharmonics_gpt.Float.Fixed.{milli_float, milli_add, milli_sub, milli_div, Milli-IsOrdered}
use pyharmonics_gpt.Float.Unit.{Milli-IsUnitLaw}
use pyharmonics_gpt.Dict.{lookup}
use pyharmonics_gpt.Loop.Checker.{
  CandidateResult, Metrics, RegimeStats, regime_imbalance, all_flags, flag_low_sample,
  flag_regime_imbalance, regime_counts, imbalance_of, flag_bear_regime_sharpe, bear_stats,
  bear_flag, flag_parent, check_candidate,
}
use pyharmonics_gpt.Loop.MakerChecker.Schemas.{
  no_diff, magnitude, Verdict, verdict_error, make_proposal, make_verdict, self_score_error,
  proposal_error, flag_error,
}
use pyharmonics_gpt.Loop.MakerChecker.Arbiter.{
  default_config, config_error, score_gap, resolve_with,
}
use pyharmonics_gpt.Loop.MakerChecker.Acceptance.{expected, no_flags, Merged, resolve_with-expected}

abbrev regime : ℕ → RegimeStats ℤ
regime n = record { n = some n; sharpe = some (pos 900) }

abbrev balanced : Metrics ℤ
balanced = record {
  trades_count = some 40;
  fitness = some (pos 1200);
  by_regime = ("bull", regime 18) ∷ ("bear", regime 12) ∷ ("range", regime 10) ∷ [];
}

abbrev skewed : Metrics ℤ
skewed = record {
  trades_count = some 40;
  fitness = some (pos 1200);
  by_regime = ("bull", regime 36) ∷ ("bear", regime 2) ∷ ("range", regime 2) ∷ [];
}

abbrev candidate : CandidateResult ℤ
candidate = record { candidate_id = "c1"; decision = "accepted"; metrics = balanced }

abbrev model_verdict : Verdict ℤ
model_verdict = record {
  candidate_id = "c1";
  checker_score = pos 800;
  confidence = pos 700;
  components = ("trade_quality", pos 600) ∷ [];
  flags = [];
  accept = true;
  feedback = "robust";
  raw_score = pos 750;
}

skewed_is_flagged : all_flags skewed none ≡ regime_imbalance "bull" (pos 900) ∷ []
unfolding all_flags flag_low_sample flag_regime_imbalance regime_counts imbalance_of
    flag_bear_regime_sharpe bear_stats bear_flag flag_parent milli_div milli_sub lookup
skewed_is_flagged = refl

no_diff_raises : make_proposal ("risk" ∷ []) [] "tighten" "stops" (pos 500) "p1" ≡ inl no_diff
unfolding make_proposal self_score_error proposal_error
no_diff_raises = refl

wild_diff_raises :
    make_proposal ("risk" ∷ []) (("stop", pos 51000) ∷ []) "tighten" "stops" (pos 500) "p1"
    ≡ inl magnitude
unfolding make_proposal self_score_error proposal_error
wild_diff_raises = refl

model_verdict_is_valid : make_verdict model_verdict ≡ inr model_verdict
unfolding make_verdict verdict_error flag_error
model_verdict_is_valid = refl

resolve_with-expected_example :
    Merged
      (expected
        (str_eq candidate.decision "accepted")
        (no_flags (all_flags candidate.metrics none))
        model_verdict.accept
        (gt (score_gap none model_verdict) (pos 400)))
      (resolve_with (some default_config) (check_candidate candidate none) model_verdict none)
unfolding config_error verdict_error milli_sub milli_add
resolve_with-expected_example =
    resolve_with-expected Milli-IsOrdered Milli-IsUnitLaw default_config candidate none
      model_verdict none refl refl refl
