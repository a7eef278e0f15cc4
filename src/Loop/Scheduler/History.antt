-- ===== src/Loop/Scheduler/History.antt =====
-- The two readings of HISTORY.jsonl: the trailing plateau, and the age of the last improvement.
use mathlib.Core.Option
use pyharmonics_gpt.Prelude.{
  ℕ, ◌+◌, Bool, true, false, Option, none, some, List, [], ◌∷◌, String, str_eq, leb, ◌==◌, ℤ, sub_ℕ,
  map, if◌then◌else◌,
}
use pyharmonics_gpt.Float.{Float, gt, nought}

pub record HistoryRecord (F : Type 0) : Type 0 where
  pub gen : Option ℕ
  pub decision : Option String
  pub fitness : Option F
  pub ts : Option F

-- A line of the file, as `strip` and `json.loads` leave it.
pub data Line (F : Type 0) : Type 0 where
  blank : Line F
  corrupt : Line F
  parsed : HistoryRecord F → Line F

unfoldable pub is_accepted : Option String → Bool
is_accepted none = false
is_accepted (some s) = str_eq s "accepted"

-- keys of `best_per_gen`: a record with no "gen" is filed under None
unfoldable pub gen_eq : Option ℕ → Option ℕ → Bool
gen_eq none none = true
gen_eq (some a) (some b) = a == b
gen_eq _ _ = false

module _ {F : Type 0} ⦃d : Float F⦄ where
  -- `rec.get("fitness") or 0.0`
  unfoldable pub fitness_of : Option F → F
  fitness_of none = nought
  fitness_of (some f) = f

  -- `if gen not in best or fit > best[gen]: best[gen] = fit`, with the time stamp beside it
  unfoldable pub keep_best :
      Option ℕ → F → Option F → List (Option ℕ × F × Option F) → List (Option ℕ × F × Option F)
  keep_best gen fit ts [] = (gen, fit, ts) ∷ []
  keep_best gen fit ts ((g, f, t) ∷ rest) =
      if gen_eq gen g
      then (if gt fit f then (g, fit, ts) ∷ rest else (g, f, t) ∷ rest)
      else (g, f, t) ∷ keep_best gen fit ts rest

  -- one line of `plateau_count_from_history`
  unfoldable pub read_line :
      List (Option ℕ × F × Option F) → Line F → List (Option ℕ × F × Option F)
  unfolding keep_best is_accepted fitness_of gen_eq
  read_line best blank = best
  read_line best corrupt = best
  read_line best (parsed r) =
      if is_accepted r.decision then keep_best r.gen (fitness_of r.fitness) r.ts best else best

  -- one line of `_last_improvement_age_hours`, which skips a record with no "gen" or "ts"
  unfoldable pub read_stamped :
      List (Option ℕ × F × Option F) → Line F → List (Option ℕ × F × Option F)
  unfolding keep_best is_accepted fitness_of gen_eq
  read_stamped best blank = best
  read_stamped best corrupt = best
  read_stamped best (parsed r) = elim r.gen [
    | none ↦ best
    | some g ↦ elim r.ts [
      | none ↦ best
      | some t ↦
          if is_accepted r.decision
          then keep_best (some g) (fitness_of r.fitness) (some t) best
          else best
    ]
  ]

  unfoldable pub read_all :
      (List (Option ℕ × F × Option F) → Line F → List (Option ℕ × F × Option F))
      → List (Option ℕ × F × Option F)
      → List (Line F)
      → List (Option ℕ × F × Option F)
  read_all step best [] = best
  read_all step best (l ∷ lines) = read_all step (step best l) lines

  -- `sorted(best_per_gen.keys())`: insertion by the key
  unfoldable pub insert_gen : ℕ → F × Option F → List (ℕ × F × Option F) → List (ℕ × F × Option F)
  insert_gen g v [] = (g, v.0, v.1) ∷ []
  insert_gen g v ((h, f, t) ∷ rest) =
      if leb g h then (g, v.0, v.1) ∷ (h, f, t) ∷ rest else (h, f, t) ∷ insert_gen g v rest

  -- Python compares no None with an int: `none` is the TypeError.
  unfoldable pub sort_gens : List (Option ℕ × F × Option F) → Option (List (ℕ × F × Option F))
  unfolding insert_gen
  sort_gens [] = some []
  sort_gens ((none, f, t) ∷ rest) = none
  sort_gens ((some g, f, t) ∷ rest) = elim (sort_gens rest) [
    | none ↦ none
    | some l ↦ some (insert_gen g (f, t) l)
  ]

  -- The loop over the later generations: the best fitness so far, and the count.
  unfoldable pub plateau_loop : F → ℕ → List F → ℕ
  plateau_loop prev_fit plateau [] = plateau
  plateau_loop prev_fit plateau (f ∷ rest) =
      plateau_loop (if gt f prev_fit then f else prev_fit)
        (if gt f prev_fit then 0 else plateau + 1) rest

  unfoldable pub plateau_of : List (ℕ × F × Option F) → ℕ
  unfolding plateau_loop
  plateau_of [] = 0
  plateau_of ((g, f, t) ∷ rest) = plateau_loop f 0 (map (λ e. e.1) rest)

  -- A single key needs no comparison, so a file with None as its one key does not raise.
  unfoldable pub plateau_count_from_history : List (Line F) → Option ℕ
  unfolding read_all read_line sort_gens plateau_of
  plateau_count_from_history lines = elim (read_all read_line [] lines) [
    | [] ↦ some 0
    | e ∷ [] ↦ some 0
    | e ∷ f ∷ rest ↦ Option.map plateau_of (sort_gens (e ∷ f ∷ rest))
  ]

  -- the time stamp of the last generation that improved on all before it
  unfoldable pub growth_loop : F → Option F → List (ℕ × F × Option F) → Option F
  growth_loop prev last [] = last
  growth_loop prev last ((g, f, t) ∷ rest) =
      growth_loop (if gt f prev then f else prev) (if gt f prev then t else last) rest

  unfoldable pub last_growth : List (ℕ × F × Option F) → Option F
  unfolding growth_loop
  last_growth [] = none
  last_growth ((g, f, t) ∷ rest) = growth_loop f t rest

  -- `_last_improvement_age_hours`, in microseconds; `none` is an exception: `datetime.fromtimestamp`
  -- raises one for a time stamp that is out of range.
  unfoldable pub last_improvement_age : (F → Option ℕ) → List (Line F) → ℕ → Option (Option ℤ)
  unfolding read_all read_stamped sort_gens last_growth
  last_improvement_age from_timestamp lines now =
      elim (sort_gens (read_all read_stamped [] lines)) [
        | none ↦ none
        | some l ↦ elim (last_growth l) [
          | none ↦ some none
          | some t ↦ Option.map (λ time. some (sub_ℕ now time)) (from_timestamp t)
        ]
      ]
