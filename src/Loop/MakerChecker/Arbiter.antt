-- ===== src/Loop/MakerChecker/Arbiter.antt =====
-- The arbiter, app/loop/maker_checker/arbiter.py.
use pyharmonics_gpt.Prelude.{
  Bool, true, false, not, ◌||◌, ◌⊎◌, inl, inr, Option, none, some, List, [], ◌∷◌, String, str_eq,
  str_append, if◌then◌else◌,
}
use pyharmonics_gpt.Float.{Float, le, gt, add, sub, mul, abs, lit}
use pyharmonics_gpt.Float.Unit.{in_unit}
use pyharmonics_gpt.Loop.Checker.{CheckerVerdict}
use pyharmonics_gpt.Loop.MakerChecker.Schemas.{
  ValueError, maker_weight_range, checker_weight_range, weight_sum, gap_threshold_range,
  unknown_m4_decision, raise_if, construct, Proposal, Verdict, MergeResult, make_merge_result,
}

pub record ArbiterConfig (F : Type 0) : Type 0 where
  pub maker_weight : F
  pub checker_weight : F
  pub maker_checker_gap_threshold : F

module _ {F : Type 0} ⦃d : Float F⦄ where
  abbrev pub default_config : ArbiterConfig F
  default_config = record {
    maker_weight = lit 4 1;
    checker_weight = lit 6 1;
    maker_checker_gap_threshold = lit 4 1;
  }

  unfoldable pub config_error : ArbiterConfig F → Option ValueError
  config_error c = raise_if (not (in_unit c.maker_weight)) maker_weight_range (
      raise_if (not (in_unit c.checker_weight)) checker_weight_range (
        raise_if (gt (abs (sub (add c.maker_weight c.checker_weight) (lit 1 0))) (lit 1 2))
          weight_sum
          (raise_if (not (in_unit c.maker_checker_gap_threshold)) gap_threshold_range none)))

  unfoldable pub maker_score : Option (Proposal F) → F
  maker_score none = lit 5 1
  maker_score (some p) = p.self_score.self_score

  unfoldable pub score_gap : Option (Proposal F) → Verdict F → F
  unfolding maker_score
  score_gap maker llm = abs (sub (maker_score maker) llm.checker_score)

  unfoldable pub final_score : ArbiterConfig F → Option (Proposal F) → Verdict F → F
  unfolding maker_score
  final_score c maker llm =
      add (mul c.maker_weight (maker_score maker)) (mul c.checker_weight llm.checker_score)

  -- `_merge`, with the arguments that every call of it shares
  unfoldable pub merge :
      ArbiterConfig F
      → CheckerVerdict F
      → Verdict F
      → Option (Proposal F)
      → String
      → List String
      → Bool
      → ValueError ⊎ MergeResult F
  unfolding final_score make_merge_result
  merge c m4 llm maker decision reasons agreement = make_merge_result (record {
    final_decision = decision;
    final_score = final_score c maker llm;
    m4_verdict = m4.decision;
    trigger_reasons = str_append "m4_" m4.decision ∷ reasons;
    checker_confidence = some llm.confidence;
    checker_flags = llm.flags;
    agreement = some agreement;
  })

  -- `Arbiter.resolve`
  unfoldable pub resolve :
      ArbiterConfig F
      → CheckerVerdict F
      → Verdict F
      → Option (Proposal F)
      → ValueError ⊎ MergeResult F
  unfolding merge score_gap
  resolve c m4 llm maker =
      let gap = score_gap maker llm in
      let close = le gap c.maker_checker_gap_threshold in
      if not (
        str_eq m4.decision "promising"
        || str_eq m4.decision "suspicious"
        || str_eq m4.decision "rejected")
      then inl unknown_m4_decision
      else if str_eq m4.decision "rejected"
      then merge c m4 llm maker "rejected" ("m4_rejected_hard_constraint" ∷ []) close
      else if str_eq m4.decision "promising"
      then (if llm.accept
          then (if gt gap c.maker_checker_gap_threshold
              then merge c m4 llm maker "suspicious_to_human"
                  ("llm_accept" ∷ "maker_checker_gap" ∷ []) false
              else merge c m4 llm maker "accepted" ("llm_accept" ∷ []) true)
          else merge c m4 llm maker "rejected" ("llm_reject_overrides" ∷ []) close)
      else if llm.accept
      then merge c m4 llm maker "suspicious_to_human" ("m4_suspicious" ∷ "llm_accept" ∷ []) false
      else merge c m4 llm maker "rejected" ("m4_suspicious" ∷ "llm_reject" ∷ []) close

  -- the module's `resolve`, which builds the arbiter and so checks its configuration
  unfoldable pub resolve_with :
      Option (ArbiterConfig F)
      → CheckerVerdict F
      → Verdict F
      → Option (Proposal F)
      → ValueError ⊎ MergeResult F
  unfolding config_error resolve
  resolve_with config m4 llm maker =
      elim (construct config_error (elim config [ none ↦ default_config | some c ↦ c ])) [
        | inl e ↦ inl e
        | inr c ↦ resolve c m4 llm maker
      ]
