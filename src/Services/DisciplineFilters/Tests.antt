-- ===== src/Services/DisciplineFilters/Tests.antt =====
-- The discipline filters over a few bars, in thousandths.
use pyharmonics_gpt.Prelude.{
  not, any, Bool, ◌&&◌, ℕ, ◌≡◌, refl, true, false, none, some, List, [], ◌∷◌, ltb, ℤ, pos, ◌*ℤ◌,
  ◌+ℤ◌, ◌-ℤ◌,
}
use pyharmonics_gpt.Float.Fixed.{milli_float, milli_add, milli_sub, milli_mul, milli_div}
use pyharmonics_gpt.Domain.Signals.{
  Candidate, Tuning, prz_low, prz_high, a_price, x_price, compute_targets,
}
use pyharmonics_gpt.Services.DisciplineFilters.{
  Bar, DisciplineResult, bars_since, c_position, or_default, prz_was_touched, past_tp2,
  liquidity_sweep, dist_pct, inputs_ok, bars_after, evaluate,
}
use pyharmonics_gpt.Services.DisciplineFilters.Passing.{IsBeyond, touches, evaluate-passed}

abbrev as_is : ℤ → ℤ
as_is x = x

-- the first volume stands in for the mean of a window of equal volumes
abbrev level_mean : List ℤ → ℤ
level_mean [] = pos 0
level_mean (v ∷ volumes) = v

abbrev bounds : Tuning ℤ
bounds = record {
  fib_tp1 = pos 382;
  fib_tp2 = pos 618;
  fib_tp3 = pos 1272;
  conservative_buffer = pos 1000;
  standard_buffer = pos 300;
  aggressive_buffer = pos 250;
  is_extended = λ name. false;
  fee_rate = pos 1;
  slippage_rate = pos 1;
  max_prz_distance_atr = pos 3000;
  max_d_age_bars = 20;
  max_forming_prz_width_atr = pos 1000;
  default_ttl_bars = 40;
}

abbrev forming_bat : Candidate ℤ
forming_bat = record {
  family = "XABCD";
  name = "bat";
  bullish = true;
  formed = false;
  points = pos 90_000 ∷ pos 120_000 ∷ pos 105_000 ∷ pos 115_000 ∷ pos 95_000 ∷ [];
  completion_min = pos 94_000;
  completion_max = pos 96_000;
  times = [];
  indices = 0 ∷ 1 ∷ 3 ∷ [];
}

abbrev at_volume : ℕ → ℕ → ℕ → Bar ℤ
at_volume high low volume = record { high = pos high; low = pos low; volume = pos volume }

abbrev approach : List (Bar ℤ)
approach =
    at_volume 120_000 110_000 1000
    ∷ at_volume 116_000 112_000 1000
    ∷ at_volume 110_000 104_000 1000
    ∷ at_volume 104_000 98_000 5000
    ∷ []

abbrev sound_result : DisciplineResult ℤ
sound_result = record {
  passed = true;
  metrics = record {
    bars_since_c = 2;
    stale = true;
    breached_stop = false;
    past_tp2 = false;
    in_prz = false;
    dist_pct = pos 4100;
    liquidity_sweep = true;
  };
}

approach_passes :
    evaluate as_is level_mean bounds approach forming_bat (pos 100_000) (some 1) none
    ≡ some sound_result
unfolding evaluate inputs_ok c_position bars_since prz_was_touched past_tp2 liquidity_sweep dist_pct
    bars_after prz_low prz_high compute_targets a_price x_price milli_mul milli_sub milli_add
    milli_div ◌*ℤ◌ ◌-ℤ◌ ◌+ℤ◌
approach_passes = refl

abbrev fresh_result : DisciplineResult ℤ
fresh_result = record {
  passed = true;
  metrics = record {
    bars_since_c = 2;
    stale = false;
    breached_stop = false;
    past_tp2 = false;
    in_prz = false;
    dist_pct = pos 4100;
    liquidity_sweep = true;
  };
}

fresh_passes :
    evaluate as_is level_mean bounds approach forming_bat (pos 100_000) none none
    ≡ some fresh_result
unfolding evaluate inputs_ok c_position bars_since prz_was_touched past_tp2 liquidity_sweep dist_pct
    bars_after prz_low prz_high compute_targets a_price x_price milli_mul milli_sub milli_add
    milli_div ◌*ℤ◌ ◌-ℤ◌ ◌+ℤ◌
fresh_passes = refl

evaluate-passed_example :
    (past : Bool) × IsBeyond as_is level_mean bounds approach forming_bat (pos 100_000) past
    × (true ≡ (
        not (
          any
            (touches (prz_low forming_bat) (prz_high forming_bat))
            (bars_after (c_position none (0 ∷ 1 ∷ 3 ∷ []) []) approach))
        && not past))
    × (true ≡ ltb (or_default (some 1) 40) (bars_since (c_position none (0 ∷ 1 ∷ 3 ∷ []) []) 4))
evaluate-passed_example =
    evaluate-passed as_is level_mean bounds approach forming_bat (pos 100_000) (some 1) none
      sound_result approach_passes
