-- ===== src/Loop/Pareto.antt =====
-- app/loop/pareto.py: the Pareto front over four objectives.
pub mod Dominance
pub mod Front
pub mod Worst
mod Tests
use pyharmonics_gpt.Prelude.{
  leb, ℕ, ◌≡◌, Bool, true, false, not, ◌&&◌, ◌||◌, Option, none, some, List, [], ◌∷◌, ◌++◌, String,
  str_eq, any, all, filter, length, map, if◌then◌else◌,
}
use pyharmonics_gpt.Dict.{Dict}
use pyharmonics_gpt.Loop.Checker.{RegimeStats, or_zero}
use pyharmonics_gpt.Float.{min, Float, lt, le, ge, gt, lit, neg, nought}

-- The keys of the metrics blob that a point is made of.
pub record ParetoMetrics (F : Type 0) : Type 0 where
  pub sharpe : Option F
  pub calmar : Option F
  pub profit_factor : Option F
  pub by_regime : Dict (RegimeStats F)
  pub trades_count : Option ℕ

pub record ParetoPoint (F : Type 0) : Type 0 where
  pub params_sha : String
  pub gen : ℕ
  pub cluster : String
  pub run_dir : String
  pub sharpe : Option F
  pub calmar : Option F
  pub profit_factor : Option F
  pub worst_regime_sharpe : Option F
  pub trade_count : ℕ
  pub fitness : F

pub safe {ℓ} : {A : Type ℓ} → Option A → A → A
safe none default = default
safe (some x) default = x

module _ {F : Type 0} ⦃d : Float F⦄ where
  -- The four objectives, of which all are maximised.
  pub objectives : ParetoPoint F → F × F × F × F
  unfolding safe
  objectives p = (
    safe p.sharpe (neg (lit 10 0)),
    safe p.calmar (neg (lit 10 0)),
    safe p.profit_factor nought,
    safe p.worst_regime_sharpe (neg (lit 10 0)),
  )

  -- `all(x >= y ...)` over the pairs of two four-tuples
  pub all_ge : F × F × F × F → F × F × F × F → Bool
  all_ge (a1, a2, a3, a4) (b1, b2, b3, b4) = ge a1 b1 && (ge a2 b2 && (ge a3 b3 && ge a4 b4))

  -- `any(x > y ...)`
  pub any_gt : F × F × F × F → F × F × F × F → Bool
  any_gt (a1, a2, a3, a4) (b1, b2, b3, b4) = gt a1 b1 || (gt a2 b2 || (gt a3 b3 || gt a4 b4))

  pub dominates : ParetoPoint F → ParetoPoint F → Bool
  unfolding objectives all_ge any_gt
  dominates a b = let oa = objectives a in let ob = objectives b in all_ge oa ob && any_gt oa ob

  -- `ParetoSet.add`: the points after the call, and whether the front moved.
  pub add : List (ParetoPoint F) → ParetoPoint F → List (ParetoPoint F) × Bool
  add points p =
      if any (λ q. str_eq q.params_sha p.params_sha) points
      then (points, false)
      else let new_points = filter (λ q. not (dominates p q)) points in
        if any (λ q. dominates q p) new_points
        then (points, false)
        else (new_points ++ p ∷ [], true)

  -- A run of the loop offers its points in turn.
  pub add_all : List (ParetoPoint F) → List (ParetoPoint F) → List (ParetoPoint F)
  unfolding add
  add_all points [] = points
  add_all points (p ∷ rest) = add_all (add points p).0 rest

  -- `[b["sharpe"] for b in regimes.values() if b.get("n", 0) >= 3 and b.get("sharpe") is not None]`
  unfoldable pub regime_sharpes : Dict (RegimeStats F) → List F
  regime_sharpes [] = []
  regime_sharpes ((k, b) ∷ regimes) =
      let rest = regime_sharpes regimes in
      elim b.sharpe [ none ↦ rest | some s ↦ if leb 3 (or_zero b.n) then s ∷ rest else rest ]

  -- Python's `min` of a list, from the best so far
  abbrev pub least_from : F → List F → F
  least_from best [] = best
  least_from best (x ∷ xs) = least_from (min best x) xs

  unfoldable pub worst_regime_sharpe : Dict (RegimeStats F) → Option F
  unfolding regime_sharpes
  worst_regime_sharpe regimes = elim (regime_sharpes regimes) [
    | [] ↦ none
    | x ∷ xs ↦ some (least_from x xs)
  ]

  unfoldable pub from_metrics : ParetoMetrics F → String → ℕ → String → String → F → ParetoPoint F
  unfolding worst_regime_sharpe
  from_metrics m params_sha gen cluster run_dir fitness = record {
    params_sha = params_sha;
    gen = gen;
    cluster = cluster;
    run_dir = run_dir;
    sharpe = m.sharpe;
    calmar = m.calmar;
    profit_factor = m.profit_factor;
    worst_regime_sharpe = worst_regime_sharpe m.by_regime;
    trade_count = or_zero m.trades_count;
    fitness = fitness;
  }
