-- ===== src/Domain/Validation.antt =====
-- The validity filter of candidates and the small verdicts, app/domain/validation.py; the scores of a
-- frame of candles are in Frames.antt. `none` is an exception of the functions it calls.
pub mod Filtering
pub mod Verdicts
pub mod Frames
pub mod Traps
mod Tests
use pyharmonics_gpt.Prelude.{
  ◌-◌, ℕ, suc, ◌+◌, Bool, true, false, not, ◌&&◌, ◌||◌, Option, none, some, List, [], ◌∷◌, String,
  str_eq, ltb, length, filter, if◌then◌else◌,
}
use pyharmonics_gpt.Float.{Float, lt, le, gt, ge, add, sub, mul, div, lit, nought, abs, max, min}
use pyharmonics_gpt.Domain.Signals.{
  Candidate, Tuning, StopOptions, prz_low, prz_high, compute_stop, compute_targets,
}

pub data Reason : Type 0 where
  stale_distance stale_age degenerate_prz violated completed : Reason

-- the last of the times
abbrev pub last_time : List ℕ → Option ℕ
last_time [] = none
last_time (t ∷ []) = some t
last_time (t ∷ u ∷ times) = last_time (u ∷ times)

-- `close_times is not None and candidate.times`, and more than the allowed closes after the last
unfoldable pub is_aged : ℕ → Option (List ℕ) → List ℕ → Bool
is_aged max_age none times = false
is_aged max_age (some closes) times = elim (last_time times) [
  | none ↦ false
  | some d_time ↦ ltb max_age (length (filter (λ close. ltb d_time close) closes))
]

module _ {F : Type 0} ⦃d : Float F⦄ where
  abbrev pub default_options : StopOptions F
  default_options = record {
    level = "standard";
    swing_anchor = none;
    entry = none;
    trap_multiplier = lit 1 0;
    regime = "normal";
    grade = none;
    stop_buffer_atr = none;
  }

  abbrev pub prz_mid : Candidate F → F
  prz_mid c = div (add (prz_low c) (prz_high c)) (lit 2 0)

  unfoldable pub is_far : Tuning F → Candidate F → F → F → Bool
  unfolding prz_low prz_high
  is_far t c price atr =
      gt atr nought && gt (abs (sub price (prz_mid c))) (mul t.max_prz_distance_atr atr)

  unfoldable pub is_degenerate : Tuning F → Candidate F → F → Bool
  unfolding prz_low prz_high
  is_degenerate t c atr =
      let width = sub (prz_high c) (prz_low c) in
      not c.formed
      && (le width nought || (gt atr nought && gt width (mul t.max_forming_prz_width_atr atr)))

  abbrev pub past_stop : Bool → F → F → Bool
  past_stop bullish price stop = (bullish && lt price stop) || (not bullish && gt price stop)

  abbrev pub past_target : Bool → F → F → Bool
  past_target bullish price tp2 = (bullish && gt price tp2) || (not bullish && lt price tp2)

  -- the last check
  unfoldable pub completed_reason : (F → F) → Tuning F → Candidate F → F → Option (Option Reason)
  completed_reason round8 t c price = elim (compute_targets round8 t c (prz_mid c)) [
    | none ↦ none
    | some targets ↦
        if past_target c.bullish price (targets.1) then some (some completed) else some none
  ]

  unfoldable pub rejection_reason :
      (F → F) → Tuning F → Candidate F → F → F → Option (List ℕ) → Option (Option Reason)
  unfolding is_far is_aged is_degenerate completed_reason
  rejection_reason round8 t c price atr close_times =
      let last_check = completed_reason round8 t c price in
      if is_far t c price atr
      then some (some stale_distance)
      else if is_aged t.max_d_age_bars close_times c.times
      then some (some stale_age)
      else if is_degenerate t c atr
      then some (some degenerate_prz)
      else if gt atr nought
      then (elim (compute_stop round8 t c atr default_options) [
        | none ↦ none
        | some result ↦
            if past_stop c.bullish price (result.0) then some (some violated) else last_check
      ])
      else last_check

  -- the two lists, for the candidates from the first on
  abbrev pub place :
      Candidate F
      → Option Reason
      → List (Candidate F) × List (Candidate F × Reason)
      → List (Candidate F) × List (Candidate F × Reason)
  place c none (valid, rejected) = (c ∷ valid, rejected)
  place c (some reason) (valid, rejected) = (valid, (c, reason) ∷ rejected)

  unfoldable pub filter_candidates :
      (F → F)
      → Tuning F
      → List (Candidate F)
      → F
      → F
      → Option (List ℕ)
      → Option (List (Candidate F) × List (Candidate F × Reason))
  unfolding rejection_reason
  filter_candidates round8 t [] price atr close_times = some ([], [])
  filter_candidates round8 t (c ∷ candidates) price atr close_times =
      elim (rejection_reason round8 t c price atr close_times) [
        | none ↦ none
        | some reason ↦ elim (filter_candidates round8 t candidates price atr close_times) [
          | none ↦ none
          | some split ↦ some (place c reason split)
        ]
      ]

  unfoldable pub direction_invariant_ok : String → F → F → List F → Bool
  direction_invariant_ok direction entry stop [] = false
  direction_invariant_ok direction entry stop (t1 ∷ []) = false
  direction_invariant_ok direction entry stop (t1 ∷ t2 ∷ []) = false
  direction_invariant_ok direction entry stop (t1 ∷ t2 ∷ t3 ∷ rest) =
      if str_eq direction "long"
      then lt stop entry && le entry t1 && lt t1 t2 && lt t2 t3
      else gt stop entry && ge entry t1 && gt t1 t2 && gt t2 t3

  -- the curve of `trap_stop_multiplier`, for a score from 0 to 100
  unfoldable pub trap_curve : ℕ → F
  trap_curve score =
      if ltb score 60
      then lit 1 0
      else if ltb score 75
      then add (lit 1 0) (mul (div (lit (score - 60) 0) (lit 15 0)) (lit 5 1))
      else if ltb score 85
      then add (lit 15 1) (mul (div (lit (score - 75) 0) (lit 10 0)) (lit 3 1))
      else min (lit 2 0) (add (lit 18 1) (mul (div (lit (score - 85) 0) (lit 5 0)) (lit 2 1)))

  unfoldable pub trap_stop_multiplier : ℕ → Option F
  unfolding trap_curve
  trap_stop_multiplier score =
      if not (ltb score 101)
      then none
      else if le {F = F} (lit 1 0) (trap_curve score) && le (trap_curve score) (lit 2 0)
      then some (trap_curve score)
      else none

  -- `adverse_momentum_veto` with its threshold
  unfoldable pub adverse_momentum_veto : String → F → F → Bool
  adverse_momentum_veto direction sharpe threshold =
      if str_eq direction "long" then lt sharpe (sub nought threshold) else gt sharpe threshold

  unfoldable pub volatility_multiplier : (F → F) → F → F → F → F
  volatility_multiplier round4 atr close target_atr_pct =
      let atr_pct = mul (div atr close) (lit 100 0) in
      let mult = div target_atr_pct (max atr_pct (lit 5 1)) in
      if le close nought then lit 1 0 else round4 (min (lit 15 1) (max (lit 5 1) mult))

-- a pattern name that Python takes for true
abbrev pub named : Option String → Bool
named none = false
named (some s) = not (str_eq s "")

abbrev pub same : Option String → Option String → Bool
same (some a) (some b) = str_eq a b
same none none = true
same none (some b) = false
same (some a) none = false

unfoldable pub stability_verdict : Option String → Option String → Option String → ℕ × Bool
stability_verdict full sub1 sub2 =
    if named full && named sub1 && named sub2
    then (if same full sub1 && same sub1 sub2
        then (85, false)
        else if same full sub1 || same full sub2
        then (55, false)
        else (25, false))
    else if named full && (named sub1 || named sub2)
    then (40, false)
    else if named full
    then (20, true)
    else (60, false)
