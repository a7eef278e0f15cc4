-- ===== src/Loop/MakerChecker/Acceptance.antt =====
-- From the worker's decision to the arbiter's: the checker's verdict handed to the arbiter.
use pyharmonics_gpt.Prelude.{
  ◌≡◌, refl, sym, subst, ◌∙◌, Bool, true, false, not, ◌&&◌, ◌||◌, arith, ◌⊎◌, inr, Option, none,
  some, List, [], ◌∷◌, String, str_eq, str_append, if◌then◌else◌,
}
use pyharmonics_gpt.Float.{Float, IsOrdered, le, gt, neg, lit, nought}
use pyharmonics_gpt.Float.Unit.{in_unit, IsUnitLaw}
use pyharmonics_gpt.Loop.Checker.{
  Flag, CheckerVerdict, CandidateResult, Metrics, all_flags, roll_up, check_candidate,
}
use pyharmonics_gpt.Loop.MakerChecker.Schemas.{
  ValueError, raise_if, construct, Proposal, Verdict, MergeResult, make_merge_result,
  merge_result_error, verdict_error, checker_confidence_error,
}
use pyharmonics_gpt.Loop.MakerChecker.Arbiter.{
  ArbiterConfig, config_error, maker_score, score_gap, final_score, merge, resolve, resolve_with,
}

-- What becomes of a candidate: the worker accepted it, no flag is raised, the language model
-- accepts it, and the two scores are too far apart.
abbrev pub expected : Bool → Bool → Bool → Bool → String
expected false clean llm far = "rejected"
expected true clean false far = "rejected"
expected true false true far = "suspicious_to_human"
expected true true true true = "suspicious_to_human"
expected true true true false = "accepted"

abbrev pub no_flags {ℓ} : {A : Type ℓ} → List A → Bool
no_flags [] = true
no_flags (f ∷ rest) = false

abbrev pub self_score_in_unit : {F : Type 0} ⦃d : Float F⦄ → Option (Proposal F) → Bool
self_score_in_unit none = true
self_score_in_unit (some p) = in_unit p.self_score.self_score

-- a result is returned, with this decision and a score from 0 to 2
abbrev pub Merged : {F : Type 0} ⦃d : Float F⦄ → String → ValueError ⊎ MergeResult F → Type 0
Merged {F} decision result =
    (r : MergeResult F) × (result ≡ inr r)
    × (r.final_decision ≡ decision)
    × ((le nought r.final_score && le r.final_score (lit 2 0)) ≡ true)

raise_unless :
    (b : Bool) (e : ValueError) (later : Option ValueError)
    → b ≡ true
    → raise_if (not b) e later ≡ later
raise_unless b e later h = ground arith

construct_ok :
    {A : Type 0} (post_init : A → Option ValueError) (x : A)
    → post_init x ≡ none
    → construct post_init x ≡ inr x
construct_ok post_init x h = rw (h, construct)

module _ {F : Type 0} ⦃d : Float F⦄ where
  final_score_bounds :
      (o : IsOrdered F) (u : IsUnitLaw F) (c : ArbiterConfig F) (maker : Option (Proposal F))
      (llm : Verdict F)
      → in_unit c.maker_weight ≡ true
      → in_unit c.checker_weight ≡ true
      → self_score_in_unit maker ≡ true
      → in_unit llm.checker_score ≡ true
      → (le nought (final_score c maker llm) && le (final_score c maker llm) (lit 2 0)) ≡ true
  unfolding final_score maker_score
  final_score_bounds o u c none llm hm hc hs hl =
      u.add_unit _ _ (u.mul_unit _ _ hm u.half_unit) (u.mul_unit _ _ hc hl)
  final_score_bounds o u c (some p) llm hm hc hs hl =
      u.add_unit _ _ (u.mul_unit _ _ hm hs) (u.mul_unit _ _ hc hl)

  abbrev merged :
      ArbiterConfig F
      → CheckerVerdict F
      → Verdict F
      → Option (Proposal F)
      → String
      → List String
      → Bool
      → MergeResult F
  merged c m4 llm maker decision reasons agreement = record {
    final_decision = decision;
    final_score = final_score c maker llm;
    m4_verdict = m4.decision;
    trigger_reasons = str_append "m4_" m4.decision ∷ reasons;
    checker_confidence = some llm.confidence;
    checker_flags = llm.flags;
    agreement = some agreement;
  }

  -- a merge with one of the three decisions raises nothing
  merge-Merged :
      (o : IsOrdered F) (u : IsUnitLaw F) (c : ArbiterConfig F) (m4 : CheckerVerdict F)
      (llm : Verdict F) (maker : Option (Proposal F)) (decision : String) (reasons : List String)
      (agreement : Bool)
      → (str_eq decision "accepted"
          || str_eq decision "rejected"
          || str_eq decision "suspicious_to_human")
        ≡ true
      → in_unit llm.confidence ≡ true
      → (le nought (final_score c maker llm) && le (final_score c maker llm) (lit 2 0)) ≡ true
      → Merged decision (merge c m4 llm maker decision reasons agreement)
  unfolding merge make_merge_result merge_result_error checker_confidence_error
  merge-Merged o u c m4 llm maker decision reasons agreement hd hc hf =
      let score = final_score c maker llm in
      let low = o.le_trans _ nought score u.neg_ten_le (ground arith) in
      let high = o.le_trans score (lit 2 0) _ (ground arith) u.two_le_ten in
      let range : (le (neg (lit 10 0)) score && le score (lit 10 0)) ≡ true = ground arith in
      (
        merged c m4 llm maker decision reasons agreement,
        construct_ok merge_result_error _
            (raise_unless _ _ _ hd ∙ raise_unless _ _ _ range ∙ raise_unless _ _ _ hc),
        refl,
        hf,
      )

-- the verdict that `roll_up` gives, by whether the worker accepted
abbrev judged : {F : Type 0} ⦃d : Float F⦄ → Bool → List (Flag F) → String
judged false flags = "rejected"
judged true [] = "promising"
judged true (f ∷ rest) = "suspicious"

module _ {F : Type 0} ⦃d : Float F⦄ where
  roll_up-judged :
      (decision : String) (flags : List (Flag F))
      → (roll_up decision flags).0 ≡ judged (str_eq decision "accepted") flags
  unfolding roll_up
  roll_up-judged decision [] = ground arith
  roll_up-judged decision (f ∷ rest) = ground arith

  accept-if :
      (llm far : Bool) (x y z : ValueError ⊎ MergeResult F)
      → Merged "suspicious_to_human" x
      → Merged "accepted" y
      → Merged "rejected" z
      → Merged (expected true true llm far) (if llm then (if far then x else y) else z)
  accept-if true true x y z hx hy hz = hx
  accept-if true false x y z hx hy hz = hy
  accept-if false far x y z hx hy hz = hz

  suspect-if :
      (llm far : Bool) (x z : ValueError ⊎ MergeResult F)
      → Merged "suspicious_to_human" x
      → Merged "rejected" z
      → Merged (expected true false llm far) (if llm then x else z)
  suspect-if true far x z hx hz = hx
  suspect-if false far x z hx hz = hz

  -- the checker's verdict, with any decision
  abbrev decided : String → CheckerVerdict F → CheckerVerdict F
  decided decision m4 = record {
    candidate_id = m4.candidate_id;
    decision = decision;
    confidence = m4.confidence;
    flags = m4.flags;
  }

  resolve-judged :
      (o : IsOrdered F) (u : IsUnitLaw F) (c : ArbiterConfig F) (m4 : CheckerVerdict F)
      (llm : Verdict F) (maker : Option (Proposal F)) (accepted : Bool) (flags : List (Flag F))
      → in_unit llm.confidence ≡ true
      → (le nought (final_score c maker llm) && le (final_score c maker llm) (lit 2 0)) ≡ true
      → Merged
          (expected accepted
            (no_flags flags)
            llm.accept
            (gt (score_gap maker llm) c.maker_checker_gap_threshold))
          (resolve c (decided (judged accepted flags) m4) llm maker)
  unfolding resolve
  resolve-judged o u c m4 llm maker false flags hc hf =
      merge-Merged o u c (decided "rejected" m4) llm maker "rejected" _ _ refl hc hf
  resolve-judged o u c m4 llm maker true [] hc hf =
      accept-if llm.accept _ _ _ _
        (merge-Merged o u c (decided "promising" m4) llm maker "suspicious_to_human" _ _ refl hc hf)
        (merge-Merged o u c (decided "promising" m4) llm maker "accepted" _ _ refl hc hf)
        (merge-Merged o u c (decided "promising" m4) llm maker "rejected" _ _ refl hc hf)
  resolve-judged o u c m4 llm maker true (f ∷ rest) hc hf =
      suspect-if llm.accept (gt (score_gap maker llm) c.maker_checker_gap_threshold) _ _
        (merge-Merged o u c (decided "suspicious" m4) llm maker "suspicious_to_human" _ _ refl hc
          hf)
        (merge-Merged o u c (decided "suspicious" m4) llm maker "rejected" _ _ refl hc hf)

  config_error-weights :
      (c : ArbiterConfig F)
      → config_error c ≡ none
      → (in_unit c.maker_weight ≡ true) × (in_unit c.checker_weight ≡ true)
  unfolding config_error
  config_error-weights c h = (ground arith, ground arith)

  verdict_error-scores :
      (llm : Verdict F)
      → verdict_error llm ≡ none
      → (in_unit llm.checker_score ≡ true) × (in_unit llm.confidence ≡ true)
  unfolding verdict_error
  verdict_error-scores llm h = (ground arith, ground arith)

  resolve_with-some :
      (c : ArbiterConfig F) (m4 : CheckerVerdict F) (llm : Verdict F) (maker : Option (Proposal F))
      → config_error c ≡ none
      → resolve_with (some c) m4 llm maker ≡ resolve c m4 llm maker
  unfolding resolve_with resolve
  resolve_with-some c m4 llm maker h = rw (h, resolve_with)

  -- For a validated configuration, verdict and proposal, the arbiter returns a result and raises
  -- nothing. The decision is "accepted" exactly if the worker accepted the candidate, the checker
  -- raises no flag, the language model accepts, and the gap of the scores is not above the
  -- threshold; without the worker's or the model's acceptance it is "rejected", and otherwise
  -- "suspicious_to_human". The final score lies between 0 and 2.
  pub resolve_with-expected :
      (o : IsOrdered F) (u : IsUnitLaw F) (c : ArbiterConfig F) (result : CandidateResult F)
      (parent : Option (Metrics F)) (llm : Verdict F) (maker : Option (Proposal F))
      → config_error c ≡ none
      → verdict_error llm ≡ none
      → self_score_in_unit maker ≡ true
      → Merged
          (expected
            (str_eq result.decision "accepted")
            (no_flags (all_flags result.metrics parent))
            llm.accept
            (gt (score_gap maker llm) c.maker_checker_gap_threshold))
          (resolve_with (some c) (check_candidate result parent) llm maker)
  unfolding check_candidate
  resolve_with-expected o u c result parent llm maker hc hv hs =
      let weights = config_error-weights c hc in
      let scores = verdict_error-scores llm hv in
      let flags = all_flags result.metrics parent in
      let m4 = check_candidate result parent in
      let bounds = final_score_bounds o u c maker llm weights.0 weights.1 hs scores.0 in
      let verdict =
        expected (str_eq result.decision "accepted") (no_flags flags) llm.accept
          (gt (score_gap maker llm) c.maker_checker_gap_threshold) in
      let step =
        resolve-judged o u c m4 llm maker (str_eq result.decision "accepted") flags scores.1
          bounds in
      subst (Merged verdict) (sym (resolve_with-some c m4 llm maker hc)) (
        subst (λ decision. Merged verdict (resolve c (decided decision m4) llm maker))
          (sym (roll_up-judged result.decision flags)) step)
