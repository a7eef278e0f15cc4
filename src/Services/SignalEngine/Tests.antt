-- ===== src/Services/SignalEngine/Tests.antt =====
-- A long at its zone, with the higher timeframe, in thousandths.
mod Samples
use pyharmonics_gpt.Prelude.{
  ℕ, ◌≡◌, refl, true, false, Option, none, some, List, [], ◌∷◌, String, str_eq, ℤ, pos, negsuc,
  quot_ℤ, ◌*ℤ◌, ◌+ℤ◌, ◌-ℤ◌, arith,
}
use pyharmonics_gpt.Float.{lit, ge}
use pyharmonics_gpt.Float.Fixed.{milli_float, milli_add, milli_sub, milli_mul, milli_div}
use pyharmonics_gpt.Dict.{lookup}
use pyharmonics_gpt.Domain.Signals.{
  Candidate, Tuning, prz_low, prz_high, x_price, a_price, prz_state, is_swept, known_level,
  base_buffer, regime_multiplier, grade_multiplier, effective_multiplier, structural_anchor,
  swing_or, stop_at, stop_requires, ensured, compute_stop, compute_targets, net_rr, reference_grade,
  grade_of, graded, grade_float,
}
use pyharmonics_gpt.Domain.Signals.Grades.{IsEarned}
use pyharmonics_gpt.Domain.Validation.{
  is_far, is_aged, is_degenerate, completed_reason, rejection_reason, filter_candidates,
  direction_invariant_ok, trap_curve, trap_stop_multiplier, adverse_momentum_veto,
  volatility_multiplier, stability_verdict,
}
use pyharmonics_gpt.Domain.Validation.Frames.{
  Bar, tail_rows, is_false_break, false_breaks, is_stop_hunt, stop_hunts, is_climax, climaxes,
  fails_zone, breakout_score, penalised, trap_of, quant_trap_risk, aligned, volume_authenticity,
  gaps, is_reversal_bar, regime_of, quant_regime,
}
use pyharmonics_gpt.Services.SignalEngine.Confluence.{
  Divergence, Weights, has_divergence, aligned_with, weight, is_reversal_candle, is_rising,
  rsi_zone_score, price_action, divergence_points, swing_of, is_near, confluence_factors,
  sum_factors, confluence_requires, confluence_score,
}
use pyharmonics_gpt.Services.SignalEngine.Context.{
  Settings, ScoreContext, Signal, graded_score, compute_swing_anchor, bump_of,
  pattern_base_score_of, status_of, entry_of, rr_of, width_of,
}
use pyharmonics_gpt.Services.SignalEngine.Verdict.{
  kept, ◌>>=◌, ◌>>◌, reject_if, require, called, not_none,
}
use pyharmonics_gpt.Services.SignalEngine.Scoring.{signal_of, finish, judge, score_candidate}
use pyharmonics_gpt.Services.SignalEngine.Sound.{Scored, score_candidate-IsEarned}
use pyharmonics_gpt.Services.SignalEngine.Ranking.{
  Frame, EngineSettings, beats, outranks, best_from, rank_signals, recheck, apply_stability,
  prepare_score_context, score_all, build_signal,
}
use pyharmonics_gpt.Services.SignalEngine.Best.{IsBest, rank_signals-IsBest}
use pyharmonics_gpt.Services.SignalEngine.Origin.{Origin}
use pyharmonics_gpt.Services.SignalEngine.Tests.Samples.{
  as_is, whole, first_value, constants, weights, settings, bar, gartley, long_signal, context,
}

scores_long : score_candidate settings context gartley "standard" ≡ kept (long_signal none)
unfolding milli_add milli_sub milli_mul milli_div ◌*ℤ◌ ◌+ℤ◌ ◌-ℤ◌ lookup prz_low prz_high x_price
    a_price prz_state is_swept known_level base_buffer regime_multiplier grade_multiplier
    effective_multiplier structural_anchor swing_or stop_at stop_requires ensured compute_stop
    compute_targets net_rr reference_grade grade_of graded grade_float is_far is_aged is_degenerate
    completed_reason rejection_reason filter_candidates direction_invariant_ok trap_curve
    trap_stop_multiplier adverse_momentum_veto volatility_multiplier stability_verdict tail_rows
    is_false_break false_breaks is_stop_hunt stop_hunts is_climax climaxes fails_zone breakout_score
    penalised trap_of quant_trap_risk aligned volume_authenticity gaps is_reversal_bar regime_of
    quant_regime has_divergence aligned_with weight is_reversal_candle is_rising rsi_zone_score
    price_action divergence_points swing_of is_near confluence_factors sum_factors
    confluence_requires confluence_score ◌>>=◌ ◌>>◌ reject_if require called not_none
    compute_swing_anchor bump_of pattern_base_score_of status_of entry_of rr_of width_of signal_of
    finish judge score_candidate beats outranks best_from rank_signals recheck apply_stability
    prepare_score_context score_all build_signal
scores_long = refl

score_candidate-IsEarned_example :
    (h : Scored settings context gartley "standard" (long_signal none)) × IsEarned
      (λ n. ge (graded_score settings gartley h.judged.raw) (lit n 0))
      h.judged.rr1
      h.judged.rr2
      true
      false
      70
      (some (width_of gartley))
score_candidate-IsEarned_example =
    score_candidate-IsEarned settings context gartley "standard" (long_signal none) scores_long
      (omega arith)

rank_signals-IsBest_example :
    (r : Signal ℤ) × (rank_signals (long_signal none ∷ long_signal (some 40) ∷ []) ≡ some r)
    × IsBest (long_signal none ∷ long_signal (some 40) ∷ []) r
rank_signals-IsBest_example = rank_signals-IsBest (long_signal none) (long_signal (some 40) ∷ [])
