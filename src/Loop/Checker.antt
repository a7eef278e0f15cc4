-- ===== src/Loop/Checker.antt =====
-- The heuristic checker, app/loop/checker.py. A flag is its data, before it is printed.
use pyharmonics_gpt.Prelude.{
  ℕ, ◌+◌, Bool, true, false, not, ◌&&◌, Option, none, some, List, [], ◌∷◌, String, str_eq, ltb,
  if◌then◌else◌, length,
}
use pyharmonics_gpt.Float.{Float, lt, le, gt, mul, sub, div, lit, nought, neg, max}
use pyharmonics_gpt.Dict.{Dict, lookup}

-- `metrics["by_regime"][k]`: an entry with neither key is falsy
pub record RegimeStats (F : Type 0) : Type 0 where
  pub n : Option ℕ
  pub sharpe : Option F

-- The keys of the metrics blob that the checker reads; a missing "by_regime" is an empty one.
pub record Metrics (F : Type 0) : Type 0 where
  pub trades_count : Option ℕ
  pub fitness : Option F
  pub by_regime : Dict (RegimeStats F)

pub record CandidateResult (F : Type 0) : Type 0 where
  pub candidate_id : String
  pub decision : String
  pub metrics : Metrics F

pub data Flag (F : Type 0) : Type 0 where
  low_sample : ℕ → Flag F
  regime_imbalance : String → F → Flag F
  bear_sharpe_extreme : F → Flag F
  bear_sharpe_missing : Flag F
  fitness_gain_trade_drop : Flag F

pub record CheckerVerdict (F : Type 0) : Type 0 where
  pub candidate_id : String
  pub decision : String
  pub confidence : F
  pub flags : List (Flag F)

-- `.get("n", 0)` and `.get("trades_count", 0)`
abbrev pub or_zero : Option ℕ → ℕ
or_zero none = 0
or_zero (some n) = n

-- `sum(counts.values())`
abbrev pub total : List (String × ℕ) → ℕ
total [] = 0
total ((k, n) ∷ counts) = n + total counts

-- the first entry with the largest count, of (k, n) and those that follow: `max(counts, key=counts.get)`
abbrev pub largest : String × ℕ → List (String × ℕ) → String × ℕ
largest best [] = best
largest best (c ∷ counts) = largest (if ltb (best.1) (c.1) then c else best) counts

-- the flags so far, and one more if it was raised
abbrev pub flagged {ℓ} : {A : Type ℓ} → Option A → List A → List A
flagged none flags = flags
flagged (some f) flags = f ∷ flags

module _ {F : Type 0} ⦃d : Float F⦄ where
  -- `{k: v.get("n", 0) for k, v in regimes.items() if v.get("n", 0)}`
  unfoldable pub regime_counts : Dict (RegimeStats F) → List (String × ℕ)
  regime_counts [] = []
  regime_counts ((k, v) ∷ regimes) =
      if ltb 0 (or_zero v.n)
      then (k, or_zero v.n) ∷ regime_counts regimes
      else regime_counts regimes

  unfoldable pub imbalance_of : List (String × ℕ) → Option (Flag F)
  imbalance_of [] = none
  imbalance_of (c ∷ counts) =
      let all_trades = total (c ∷ counts) in
      let dominant = div (lit ((largest c counts).1) 0) (lit all_trades 0) in
      if ltb all_trades 10
      then none
      else (if gt dominant (lit 85 2)
          then some (regime_imbalance ((largest c counts).0) dominant)
          else none)

  unfoldable pub flag_regime_imbalance : Metrics F → Option (Flag F)
  unfolding imbalance_of regime_counts
  flag_regime_imbalance m = imbalance_of (regime_counts m.by_regime)

  unfoldable pub flag_low_sample : Metrics F → Option (Flag F)
  flag_low_sample m =
      if ltb (or_zero m.trades_count) 30 then some (low_sample (or_zero m.trades_count)) else none

  abbrev pub no_stats : RegimeStats F
  no_stats = record { n = none; sharpe = none }

  abbrev pub range_stats : Option (RegimeStats F) → RegimeStats F
  range_stats none = no_stats
  range_stats (some r) = r

  -- `{}`: an entry holds no other keys than these two
  abbrev pub is_falsy : RegimeStats F → Bool
  is_falsy r = elim r.n [ some n ↦ false | none ↦ elim r.sharpe [ some s ↦ false | none ↦ true ] ]

  -- `regimes.get("bear") or regimes.get("range", {})`
  unfoldable pub bear_stats : Dict (RegimeStats F) → RegimeStats F
  bear_stats regimes = elim (lookup "bear" regimes) [
    | none ↦ range_stats (lookup "range" regimes)
    | some r ↦ if is_falsy r then range_stats (lookup "range" regimes) else r
  ]

  unfoldable pub bear_flag : RegimeStats F → Option (Flag F)
  bear_flag bear = if ltb (or_zero bear.n) 3 then none else elim bear.sharpe [
    | none ↦ some bear_sharpe_missing
    | some s ↦ if lt s (neg (lit 1 0)) then some (bear_sharpe_extreme s) else none
  ]

  unfoldable pub flag_bear_regime_sharpe : Metrics F → Option (Flag F)
  unfolding bear_flag bear_stats
  flag_bear_regime_sharpe m = bear_flag (bear_stats m.by_regime)

  -- `if x`, of a float
  abbrev pub is_truthy : F → Bool
  is_truthy x = not (le x nought && le nought x)

  -- the fitness more than doubled while the trades fell below half, or below fifteen
  unfoldable pub gained_by_dropping : F → ℕ → F → ℕ → Bool
  gained_by_dropping f_new tc_new f_old tc_old =
      gt f_new (mul (lit 2 0) f_old)
      && lt {F = F} (lit tc_new 0) (max (lit 15 0) (mul (lit tc_old 0) (lit 5 1)))

  unfoldable pub flag_parent : Metrics F → Option (Metrics F) → Option (Flag F)
  unfolding gained_by_dropping
  flag_parent m none = none
  flag_parent m (some parent) = elim m.fitness [
    | none ↦ none
    | some f_new ↦ elim parent.fitness [
      | none ↦ none
      | some f_old ↦
          if is_truthy f_new
            && is_truthy f_old
            && gained_by_dropping f_new (or_zero m.trades_count) f_old (or_zero parent.trades_count)
          then some fitness_gain_trade_drop
          else none
    ]
  ]

  unfoldable pub all_flags : Metrics F → Option (Metrics F) → List (Flag F)
  unfolding flag_low_sample flag_regime_imbalance flag_bear_regime_sharpe flag_parent
  all_flags m parent = flagged (flag_low_sample m) (
      flagged (flag_regime_imbalance m)
        (flagged (flag_bear_regime_sharpe m) (flagged (flag_parent m parent) [])))

  -- the decision and the confidence
  unfoldable pub roll_up : String → List (Flag F) → String × F
  roll_up decision flags =
      if not (str_eq decision "accepted") then ("rejected", lit 9 1) else elim flags [
        | [] ↦ ("promising", lit 7 1)
        | f ∷ rest ↦
            ("suspicious", max nought (sub (lit 7 1) (mul (lit 15 2) (lit (length (f ∷ rest)) 0))))
      ]

  unfoldable pub check_candidate : CandidateResult F → Option (Metrics F) → CheckerVerdict F
  unfolding all_flags roll_up
  check_candidate result parent =
      let flags = all_flags result.metrics parent in
      let verdict = roll_up result.decision flags in
      record {
        candidate_id = result.candidate_id;
        decision = verdict.0;
        confidence = verdict.1;
        flags = flags;
      }
