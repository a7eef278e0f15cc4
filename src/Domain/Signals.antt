-- ===== src/Domain/Signals.antt =====
-- The pure signal math, app/domain/signals.py. The tuning constants in force are an argument, as is
-- Python's `round`; the texts that explain a stop are left out. `none` is an exception: a contract
-- violation, or an IndexError.
pub mod Stops
pub mod Targets
pub mod Grades
mod Tests
use mathlib.Core.Option
use pyharmonics_gpt.Prelude.{
  ℕ, Bool, true, false, not, ◌&&◌, ◌||◌, Option, none, some, List, [], ◌∷◌, String, str_eq, leb,
  all, if◌then◌else◌,
}
use pyharmonics_gpt.Float.{Float, lt, le, gt, ge, add, sub, mul, div, lit, nought, abs, max, min}

pub record Candidate (F : Type 0) : Type 0 where
  pub family : String
  pub name : String
  pub bullish : Bool
  pub formed : Bool
  pub points : List F
  pub completion_min : F
  pub completion_max : F
  pub times : List ℕ
  pub indices : List ℕ

-- The constants of app/config/tuning.py that are read here.
pub record Tuning (F : Type 0) : Type 0 where
  pub fib_tp1 : F
  pub fib_tp2 : F
  pub fib_tp3 : F
  pub conservative_buffer : F
  pub standard_buffer : F
  pub aggressive_buffer : F
  -- `name.lower() in extended_patterns`
  pub is_extended : String → Bool
  pub fee_rate : F
  pub slippage_rate : F
  pub max_prz_distance_atr : F
  pub max_d_age_bars : ℕ
  pub max_forming_prz_width_atr : F
  pub default_ttl_bars : ℕ

-- The keyword arguments of `compute_stop`.
pub record StopOptions (F : Type 0) : Type 0 where
  pub level : String
  pub swing_anchor : Option F
  pub entry : Option F
  pub trap_multiplier : F
  pub regime : String
  pub grade : Option String
  pub stop_buffer_atr : Option F

-- an unknown level is the standard one
unfoldable pub known_level : String → String
known_level level =
    if str_eq level "conservative" || str_eq level "standard" || str_eq level "aggressive"
    then level
    else "standard"

-- The tests of a score, an int or a float, are given: `reaches n` is `score >= n`.
-- the grade of a score from 45 on, for an observation
unfoldable pub reference_grade : (ℕ → Bool) → Option String
reference_grade reaches = if reaches 45 then some "C(参考)" else none

abbrev pub at_least : ℕ → ℕ → Bool
at_least score n = leb n score

unfoldable pub grade_requires : ℕ → Bool → Bool → ℕ → Bool
grade_requires score htf_aligned htf_counter a_min =
    leb score 100 && leb 1 a_min && leb a_min 100 && not (htf_aligned && htf_counter)

module _ {F : Type 0} ⦃d : Float F⦄ where
  unfoldable pub prz_low : Candidate F → F
  prz_low c = min c.completion_min c.completion_max

  unfoldable pub prz_high : Candidate F → F
  prz_high c = max c.completion_min c.completion_max

  -- `points[0]`
  unfoldable pub x_price : Candidate F → Option F
  x_price c = elim c.points [ [] ↦ none | x ∷ rest ↦ some x ]

  abbrev pub second : List F → Option F
  second [] = none
  second (x ∷ []) = none
  second (x ∷ a ∷ rest) = some a

  unfoldable pub a_price : Candidate F → Option F
  unfolding x_price
  a_price c = if str_eq c.family "XABCD" then second c.points else x_price c

  unfoldable pub prz_state : F → F → F → Bool → String
  prz_state price low high swept =
      if swept then "swept" else if le low price && le price high then "in_prz" else "approaching"

  unfoldable pub is_swept : F → F → F → F → F → Bool
  is_swept low high close prz_bottom prz_top =
      let pierced_below = lt low prz_bottom && le prz_bottom close && le close prz_top in
      let pierced_above = gt high prz_top && ge prz_top close && ge close prz_bottom in
      pierced_below || pierced_above

  unfoldable pub base_buffer : Tuning F → StopOptions F → F
  unfolding known_level
  base_buffer t o = elim o.stop_buffer_atr [
    | some base ↦ base
    | none ↦
        if str_eq (known_level o.level) "conservative"
        then t.conservative_buffer
        else if str_eq (known_level o.level) "aggressive"
        then t.aggressive_buffer
        else t.standard_buffer
  ]

  unfoldable pub regime_multiplier : String → F
  regime_multiplier regime = if str_eq regime "high_quant" then lit 15 1 else lit 1 0

  unfoldable pub grade_multiplier : Option String → F
  grade_multiplier none = lit 1 0
  grade_multiplier (some g) =
      if str_eq g "C" then lit 13 1 else if str_eq g "C(参考)" then lit 15 1 else lit 1 0

  -- the product of the chain, clamped
  unfoldable pub effective_multiplier : Tuning F → StopOptions F → F
  unfolding base_buffer regime_multiplier grade_multiplier
  effective_multiplier t o =
      min
        (mul
          (mul (mul (base_buffer t o) (max (lit 1 0) o.trap_multiplier))
            (regime_multiplier o.regime))
          (grade_multiplier o.grade))
        (lit 2 0)

  -- the structural anchor, at the outer edge `edge` of the zone and the farther of it and X
  unfoldable pub structural_anchor : Tuning F → StopOptions F → Candidate F → Option F
  unfolding known_level prz_low prz_high x_price
  structural_anchor t o c =
      let edge = if c.bullish then prz_low c else prz_high c in
      let beyond : F → F = λ x. if c.bullish then min x (prz_low c) else max x (prz_high c) in
      let level = known_level o.level in
      if str_eq level "conservative"
      then some edge
      else if str_eq level "aggressive"
      then Option.map beyond (x_price c)
      else if t.is_extended c.name
      then some edge
      else Option.map beyond (x_price c)

  -- the swing, if it is on the right side of the entry and tighter than the structure
  unfoldable pub swing_or : StopOptions F → Bool → F → F
  swing_or o bullish anchor = elim o.swing_anchor [
    | none ↦ anchor
    | some swing ↦ elim o.entry [
      | none ↦ anchor
      | some entry ↦
          if bullish
          then (if lt swing entry && gt swing nought && gt swing anchor then swing else anchor)
          else (if gt swing entry && gt swing nought && lt swing anchor then swing else anchor)
    ]
  ]

  -- the stop and the invalidation point at an anchor
  unfoldable pub stop_at : (F → F) → Bool → F → F → F × F
  stop_at round8 bullish anchor buffer =
      (round8 (if bullish then sub anchor buffer else add anchor buffer), round8 anchor)

  -- the conditions of @require, and of @ensure
  unfoldable pub stop_requires : Candidate F → F → Bool
  unfolding prz_low prz_high
  stop_requires c atr =
      gt atr nought
      && gt (prz_low c) nought
      && gt (prz_high c) nought
      && all (λ p. gt p nought) c.points

  unfoldable pub ensured : F × F → Option (F × F)
  ensured result = if gt (result.0) nought && gt (result.1) nought then some result else none

  unfoldable pub compute_stop :
      (F → F) → Tuning F → Candidate F → F → StopOptions F → Option (F × F)
  unfolding stop_requires structural_anchor swing_or stop_at effective_multiplier ensured
  compute_stop round8 t c atr o =
      if not (stop_requires c atr) then none else elim (structural_anchor t o c) [
        | none ↦ none
        | some anchor ↦ ensured (
            stop_at round8 c.bullish (swing_or o c.bullish anchor)
              (mul (effective_multiplier t o) atr))
      ]

  -- the three prices of `compute_targets`
  unfoldable pub compute_targets : (F → F) → Tuning F → Candidate F → F → Option (F × F × F)
  unfolding a_price
  compute_targets round8 t c entry = elim (a_price c) [
    | none ↦ none
    | some a ↦
        let span = abs (sub a entry) in
        let price : F → F = λ fib.
          round8 (if c.bullish then add entry (mul fib span) else sub entry (mul fib span)) in
        some (price t.fib_tp1, price t.fib_tp2, price t.fib_tp3)
  ]

  -- With the rates given: the ratio, or None for a degenerate geometry; the outer `none` is a contract violation
  unfoldable pub net_rr : (F → F) → F → F → F → F → F → Option (Option F)
  net_rr round4 fee_rate slippage_rate entry stop target =
      let risk = abs (sub entry stop) in
      let cost = mul (mul (lit 2 0) (add fee_rate slippage_rate)) entry in
      let reward = sub (abs (sub target entry)) cost in
      let net_risk = add risk cost in
      let ratio = round4 (div reward net_risk) in
      if not (
        gt entry nought
        && gt stop nought
        && gt target nought
        && ge fee_rate nought
        && ge slippage_rate nought)
      then none
      else if le risk nought || le entry nought
      then some none
      else if le reward nought || le net_risk nought
      then some none
      else (if gt ratio nought then some (some ratio) else none)

  abbrev pub is_wide : Option F → Bool
  is_wide none = false
  is_wide (some w) = ge w (lit 4 2)

  -- `grade`, behind its preconditions
  unfoldable pub grade_of : (ℕ → Bool) → F → F → Bool → Bool → ℕ → Option F → Option String
  unfolding reference_grade
  grade_of reaches rr_tp1 rr_tp2 htf_aligned htf_counter a_min width_pct =
      if is_wide width_pct
      then reference_grade reaches
      else if htf_counter
      then reference_grade reaches
      else if lt rr_tp1 (lit 1 0) || lt rr_tp2 (lit 15 1)
      then reference_grade reaches
      else if reaches a_min && ge rr_tp2 (lit 2 0) && htf_aligned
      then some "A"
      else if reaches 60
      then some "B"
      else reference_grade reaches

  -- `grade` with its precondition; `none` is a contract violation, and the inner one the None that is
  -- returned
  unfoldable pub graded :
      Bool → (ℕ → Bool) → Option F → Option F → Bool → Bool → ℕ → Option F → Option (Option String)
  unfolding grade_of
  graded required reaches rr_tp1 rr_tp2 htf_aligned htf_counter a_min width_pct =
      if not required then none else elim rr_tp1 [
        | none ↦ some none
        | some one ↦ elim rr_tp2 [
          | none ↦ some none
          | some two ↦ some (grade_of reaches one two htf_aligned htf_counter a_min width_pct)
        ]
      ]

  unfoldable pub grade :
      ℕ → Option F → Option F → Bool → Bool → ℕ → Option F → Option (Option String)
  unfolding grade_requires graded
  grade score rr_tp1 rr_tp2 htf_aligned htf_counter a_min width_pct =
      graded (grade_requires score htf_aligned htf_counter a_min) (at_least score) rr_tp1 rr_tp2
        htf_aligned htf_counter a_min width_pct

  -- the same at a score that is a float
  unfoldable pub grade_float :
      F → Option F → Option F → Bool → Bool → ℕ → Option F → Option (Option String)
  unfolding graded
  grade_float score rr_tp1 rr_tp2 htf_aligned htf_counter a_min width_pct =
      graded
        (ge score nought
          && le score (lit 100 0)
          && leb 1 a_min
          && leb a_min 100
          && not (htf_aligned && htf_counter))
        (λ n. ge score (lit n 0)) rr_tp1 rr_tp2 htf_aligned htf_counter a_min width_pct
