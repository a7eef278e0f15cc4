-- ===== src/Loop/WalkForward.antt =====
-- The quarterly walk-forward, app/loop/walk_forward.py. The run of one quarter, which starts a process,
-- is given by its result; of a metrics blob the keys that are read are kept.
pub mod Aggregates
pub mod Quarters
mod Tests
use pyharmonics_gpt.Prelude.{
  ℕ, zero, suc, ◌+◌, Bool, true, false, not, ◌&&◌, ◌||◌, Option, none, some, List, [], ◌∷◌, map,
  ltb, length, String, str_eq, if◌then◌else◌,
}
use pyharmonics_gpt.Float.{Float, lt, add, div, lit, nought, min}
use pyharmonics_gpt.Loop.Checker.{or_zero}
use pyharmonics_gpt.Loop.Pareto.{least_from}

-- A quarter of `list_quarters`, before it is printed.
pub record Quarter : Type 0 where
  pub year : ℕ
  pub q : ℕ

-- The loop of `list_quarters`, from its `year` and `q`.
unfoldable pub quarters_from : ℕ → ℕ → ℕ → List Quarter
quarters_from year q zero = []
quarters_from year q (suc n) =
    let year_is_over = ltb 4 (q + 1) in
    record { year = year; q = q }
    ∷ quarters_from (if year_is_over then year + 1 else year) (if year_is_over then 1 else q + 1) n

unfoldable pub list_quarters : ℕ → ℕ → List Quarter
unfolding quarters_from
list_quarters start_year n_quarters = quarters_from start_year 1 n_quarters

-- A metrics blob, with its "__candidate_id__".
pub record Blob (F : Type 0) : Type 0 where
  pub candidate_id : Option String
  pub sharpe : Option F
  pub calmar : Option F
  pub trades_count : Option ℕ

pub record WalkForwardAggregate (F : Type 0) : Type 0 where
  pub candidate_id : String
  pub quarters : List String
  pub per_quarter : List (String × Blob F)
  pub mean_sharpe : F
  pub mean_calmar : F
  pub mean_trade_count : F
  pub worst_quarter_sharpe : F
  pub oos_quarter : Option String
  pub oos_sharpe : Option F
  pub oos_trade_count : ℕ
  pub oos_collapse : Bool

-- The fields of `CandidateResult` that are read.
pub record CandidateResult (F : Type 0) : Type 0 where
  pub decision : String
  pub metrics : Option (Blob F)

-- the value, or what stands for a missing one
abbrev pub or_else {ℓ} : {A : Type ℓ} → Option A → A → A
or_else none default = default
or_else (some x) default = x

module _ {F : Type 0} ⦃d : Float F⦄ where
  -- `m.get("sharpe") or 0.0` of each, and the same of the calmar
  abbrev pub ratios : (Blob F → Option F) → List (String × Blob F) → List F
  ratios ratio [] = []
  ratios ratio ((q, m) ∷ per_quarter) = or_else (ratio m) nought ∷ ratios ratio per_quarter

  abbrev pub sum_from : F → List F → F
  sum_from acc [] = acc
  sum_from acc (x ∷ xs) = sum_from (add acc x) xs

  abbrev pub trades : List (String × Blob F) → ℕ
  trades [] = 0
  trades ((q, m) ∷ per_quarter) = or_zero m.trades_count + trades per_quarter

  -- the first blob of the quarter
  unfoldable pub find_quarter : String → List (String × Blob F) → Option (Blob F)
  find_quarter oos [] = none
  find_quarter oos ((q, m) ∷ per_quarter) =
      let rest = find_quarter oos per_quarter in if str_eq q oos then some m else rest

  abbrev pub oos_metrics_of : Option String → List (String × Blob F) → Option (Blob F)
  oos_metrics_of none per_quarter = none
  oos_metrics_of (some oos) per_quarter = find_quarter oos per_quarter

  -- `oos_sharpe is None or oos_sharpe < 0.0 or oos_tc < 15`
  unfoldable pub collapses : Blob F → Bool
  collapses m = elim m.sharpe [
    | none ↦ true
    | some s ↦ lt s nought || ltb (or_zero m.trades_count) 15
  ]

  -- the blob without the keys that start with "_"
  abbrev pub public_part : String × Blob F → String × Blob F
  public_part (q, m) = (q, record m { candidate_id = none })

  abbrev pub nothing_run : WalkForwardAggregate F
  nothing_run = record {
    candidate_id = "?";
    quarters = [];
    per_quarter = [];
    mean_sharpe = nought;
    mean_calmar = nought;
    mean_trade_count = nought;
    worst_quarter_sharpe = nought;
    oos_quarter = none;
    oos_sharpe = none;
    oos_trade_count = 0;
    oos_collapse = false;
  }

  unfoldable pub aggregate : List (String × Blob F) → Option String → WalkForwardAggregate F
  unfolding collapses
  aggregate [] oos_quarter = nothing_run
  aggregate ((q, m) ∷ rest) oos_quarter =
      let per_quarter = (q, m) ∷ rest in
      let n = lit (length per_quarter) 0 in
      let oos = oos_metrics_of oos_quarter per_quarter in
      record {
        candidate_id = or_else m.candidate_id "?";
        quarters = map (λ r. r.0) per_quarter;
        per_quarter = map public_part per_quarter;
        mean_sharpe = div (sum_from nought (ratios (λ b. b.sharpe) per_quarter)) n;
        mean_calmar = div (sum_from nought (ratios (λ b. b.calmar) per_quarter)) n;
        mean_trade_count = div (lit (trades per_quarter) 0) n;
        worst_quarter_sharpe = least_from (or_else m.sharpe nought) (ratios (λ b. b.sharpe) rest);
        oos_quarter = oos_quarter;
        oos_sharpe = elim oos [ none ↦ none | some b ↦ b.sharpe ];
        oos_trade_count = elim oos [ none ↦ 0 | some b ↦ or_zero b.trades_count ];
        oos_collapse = elim oos [ none ↦ false | some b ↦ collapses b ];
      }

  abbrev pub no_metrics : Blob F
  no_metrics = record { candidate_id = none; sharpe = none; calmar = none; trades_count = none }

  -- the loop of `walk_forward`: an errored quarter is skipped
  unfoldable pub run_quarters : String → List (String × CandidateResult F) → List (String × Blob F)
  run_quarters candidate_id [] = []
  run_quarters candidate_id ((q, r) ∷ runs) =
      let per_quarter = run_quarters candidate_id runs in
      if str_eq r.decision "error"
      then per_quarter
      else (q, record (or_else r.metrics no_metrics) { candidate_id = some candidate_id })
        ∷ per_quarter

  abbrev pub last_quarter : List (String × CandidateResult F) → Option String
  last_quarter [] = none
  last_quarter ((q, r) ∷ []) = some q
  last_quarter ((q, r) ∷ next ∷ runs) = last_quarter (next ∷ runs)

  -- each quarter stands with the result of its run
  unfoldable pub walk_forward : String → List (String × CandidateResult F) → WalkForwardAggregate F
  unfolding aggregate run_quarters
  walk_forward candidate_id runs = aggregate (run_quarters candidate_id runs) (last_quarter runs)
