-- ===== src/Loop/Pareto/Tests.antt =====
-- The Pareto theorems at concrete points.
use pyharmonics_gpt.Prelude.{ℕ, ◌≡◌, refl, none, some, List, [], ◌∷◌, ℤ, pos, String}
use pyharmonics_gpt.Float.Fixed.{milli_float, milli_sub, Milli-IsOrdered}
use pyharmonics_gpt.Loop.Pareto.{ParetoPoint, ParetoMetrics, dominates, add_all, from_metrics}
use pyharmonics_gpt.Dict.{Dict}
use pyharmonics_gpt.Loop.Checker.{RegimeStats}
use pyharmonics_gpt.Loop.Pareto.Front.{add_all-eq-maximal, maximal_points}

abbrev point : String → ℕ → ℕ → ParetoPoint ℤ
point sha sharpe calmar = record {
  params_sha = sha;
  gen = 1;
  cluster = "C3";
  run_dir = "runs/1";
  sharpe = some (pos sharpe);
  calmar = some (pos calmar);
  profit_factor = none;
  worst_regime_sharpe = none;
  trade_count = 40;
  fitness = pos 0;
}

abbrev offered : List (ParetoPoint ℤ)
offered = point "a" 1 5 ∷ point "b" 3 3 ∷ point "c" 2 2 ∷ point "d" 4 3 ∷ []

add_all_run : add_all [] offered ≡ point "a" 1 5 ∷ point "d" 4 3 ∷ []
unfolding add_all dominates milli_sub
add_all_run = refl

add_all-eq-maximal_example : add_all [] offered ≡ maximal_points offered
add_all-eq-maximal_example =
    add_all-eq-maximal Milli-IsOrdered offered (refl, (refl, (refl, (refl, tt))))

abbrev regime : ℕ → ℕ → RegimeStats ℤ
regime n sharpe = record { n = some n; sharpe = some (pos sharpe) }

-- the third regime has too few trades to count
abbrev regimes : Dict (RegimeStats ℤ)
regimes = ("bull", regime 20 900) ∷ ("bear", regime 5 300) ∷ ("range", regime 2 100) ∷ []

abbrev blob : ParetoMetrics ℤ
blob = record {
  sharpe = none;
  calmar = none;
  profit_factor = none;
  by_regime = regimes;
  trades_count = none;
}

missing_count_is_zero : (from_metrics blob "sha" 1 "C3" "runs/1" (pos 0)).trade_count ≡ 0
unfolding from_metrics
missing_count_is_zero = refl
