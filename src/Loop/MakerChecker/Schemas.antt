-- ===== src/Loop/MakerChecker/Schemas.antt =====
-- The contracts between maker, checker and arbiter, app/loop/maker_checker/schemas.py, with the
-- validation of each `__post_init__`.
use pyharmonics_gpt.Prelude.{
  Bool, true, false, not, ◌&&◌, ◌||◌, ◌⊎◌, inl, inr, Option, none, some, List, [], ◌∷◌, String,
  str_eq, str_length, ltb, if◌then◌else◌,
}
use pyharmonics_gpt.Float.{Float, le, gt, neg, abs, lit}
use pyharmonics_gpt.Float.Unit.{in_unit}
use pyharmonics_gpt.Dict.{Dict}

-- Each `raise ValueError` of the contracts, by its message.
pub data ValueError : Type 0 where
  self_score_range no_clusters no_diff magnitude intent_length reasoning_length : ValueError
  checker_score_range confidence_range raw_score_range component_range : ValueError
  flag_fields flag_severity feedback_length : ValueError
  unknown_final_decision final_score_range checker_confidence_range : ValueError
  maker_weight_range checker_weight_range weight_sum gap_threshold_range unknown_m4_decision :
      ValueError

-- `if failed: raise e`, and then the checks that follow it
abbrev pub raise_if : Bool → ValueError → Option ValueError → Option ValueError
raise_if failed e later = if failed then some e else later

-- a loop of checks: the first that fails raises
abbrev pub first_error {ℓ} :
    {A : Type ℓ} → (A → Option ValueError) → List A → Option ValueError → Option ValueError
first_error check [] later = later
first_error check (x ∷ xs) later = elim (check x) [
  | some e ↦ some e
  | none ↦ first_error check xs later
]

-- an object that its `__post_init__` has looked at
abbrev pub construct {ℓ} : {A : Type ℓ} → (A → Option ValueError) → A → ValueError ⊎ A
construct post_init x = elim (post_init x) [ some e ↦ inl e | none ↦ inr x ]

-- A flag is a dict of strings, of which two keys are read.
pub record CheckerFlag : Type 0 where
  pub severity : Option String
  pub issue : Option String

pub record MakerSelfScore (F : Type 0) : Type 0 where
  pub self_score : F
  pub expected_impact : Dict String

pub record Proposal (F : Type 0) : Type 0 where
  pub clusters_touched : List String
  pub diff : Dict F
  pub maker_intent : String
  pub reasoning : String
  pub self_score : MakerSelfScore F
  pub proposal_id : String

pub record Verdict (F : Type 0) : Type 0 where
  pub candidate_id : String
  pub checker_score : F
  pub confidence : F
  pub components : Dict F
  pub flags : List CheckerFlag
  pub accept : Bool
  pub feedback : String
  pub raw_score : F

pub record MergeResult (F : Type 0) : Type 0 where
  pub final_decision : String
  pub final_score : F
  pub m4_verdict : String
  pub trigger_reasons : List String
  pub checker_confidence : Option F
  pub checker_flags : List CheckerFlag
  pub agreement : Option Bool

abbrev pub is_empty {ℓ} : {A : Type ℓ} → List A → Bool
is_empty [] = true
is_empty (x ∷ xs) = false

unfoldable pub flag_error : CheckerFlag → Option ValueError
flag_error f = elim f.severity [
  | none ↦ some flag_fields
  | some s ↦ elim f.issue [
    | none ↦ some flag_fields
    | some i ↦
        raise_if (not (str_eq s "high" || str_eq s "medium" || str_eq s "low")) flag_severity none
  ]
]

module _ {F : Type 0} ⦃d : Float F⦄ where
  unfoldable pub self_score_error : MakerSelfScore F → Option ValueError
  self_score_error m = raise_if (not (in_unit m.self_score)) self_score_range none

  unfoldable pub proposal_error : Proposal F → Option ValueError
  proposal_error p = raise_if (is_empty p.clusters_touched) no_clusters (
      raise_if (is_empty p.diff) no_diff (
        first_error (λ item. raise_if (gt (abs (item.1)) (lit 50 0)) magnitude none) p.diff
          (raise_if (ltb 64 (str_length p.maker_intent)) intent_length
            (raise_if (ltb 200 (str_length p.reasoning)) reasoning_length none))))

  unfoldable pub verdict_error : Verdict F → Option ValueError
  unfolding flag_error
  verdict_error v = raise_if (not (in_unit v.checker_score)) checker_score_range (
      raise_if (not (in_unit v.confidence)) confidence_range (
        raise_if (not (in_unit v.raw_score)) raw_score_range (
          first_error (λ item. raise_if (not (in_unit (item.1))) component_range none) v.components
            (first_error flag_error v.flags
              (raise_if (ltb 200 (str_length v.feedback)) feedback_length none)))))

  unfoldable pub checker_confidence_error : Option F → Option ValueError
  checker_confidence_error none = none
  checker_confidence_error (some c) = raise_if (not (in_unit c)) checker_confidence_range none

  unfoldable pub merge_result_error : MergeResult F → Option ValueError
  unfolding checker_confidence_error
  merge_result_error r =
      raise_if
        (not (
          str_eq r.final_decision "accepted"
          || str_eq r.final_decision "rejected"
          || str_eq r.final_decision "suspicious_to_human"))
        unknown_final_decision
        (raise_if (not (le (neg (lit 10 0)) r.final_score && le r.final_score (lit 10 0)))
          final_score_range (checker_confidence_error r.checker_confidence))

  -- `make_proposal`: the nested self-score is built, and checked, first
  unfoldable pub make_proposal :
      List String → Dict F → String → String → F → String → ValueError ⊎ Proposal F
  unfolding self_score_error proposal_error
  make_proposal clusters diff intent reasoning score proposal_id =
      elim (construct self_score_error (record { self_score = score; expected_impact = [] })) [
        | inl e ↦ inl e
        | inr m ↦ construct proposal_error (record {
          clusters_touched = clusters;
          diff = diff;
          maker_intent = intent;
          reasoning = reasoning;
          self_score = m;
          proposal_id = proposal_id;
        })
      ]

  unfoldable pub make_verdict : Verdict F → ValueError ⊎ Verdict F
  unfolding verdict_error
  make_verdict = construct verdict_error

  unfoldable pub make_merge_result : MergeResult F → ValueError ⊎ MergeResult F
  unfolding merge_result_error
  make_merge_result = construct merge_result_error
