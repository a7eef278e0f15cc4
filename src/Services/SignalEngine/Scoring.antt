-- ===== src/Services/SignalEngine/Scoring.antt =====
-- `score_candidate` and its helpers, app/services/signal_engine.py; the reasoning, a text, is left out.
use pyharmonics_gpt.Prelude.{
  ℕ, not, Option, none, some, [], ◌∷◌, String, str_eq, ltb, if◌then◌else◌,
}
use pyharmonics_gpt.Float.{Float, gt, nought}
use pyharmonics_gpt.Dict.{Dict}
use pyharmonics_gpt.Domain.Signals.{
  Candidate, prz_low, prz_high, compute_stop, compute_targets, grade_float,
}
use pyharmonics_gpt.Domain.Validation.{
  direction_invariant_ok, trap_stop_multiplier, adverse_momentum_veto,
}
use pyharmonics_gpt.Domain.Validation.Frames.{quant_trap_risk}
use pyharmonics_gpt.Services.SignalEngine.Confluence.{confluence_score}
use pyharmonics_gpt.Services.SignalEngine.Verdict.{
  Verdict, kept, ◌>>=◌, ◌>>◌, reject_if, require, called, not_none,
}
use pyharmonics_gpt.Services.SignalEngine.Context.{
  Settings, ScoreContext, Signal, direction_of, is_level, or_zero_float, compute_swing_anchor,
  status_of, entry_of, first_options, last_options, rr_of, graded_score, width_of, is_with_trend,
  is_against_trend, clamp_sharpe,
}

module _ {F : Type 0} ⦃d : Float F⦄ where
  -- the signal, once it is graded
  unfoldable pub signal_of :
      Settings F
      → ScoreContext F
      → Candidate F
      → String
      → String
      → F
      → Dict F
      → F × F × F
      → ℕ
      → F × F
      → Option F
      → Option F
      → Signal F
  unfolding status_of entry_of width_of prz_low prz_high
  signal_of s ctx c level g score factors targets trap_score stop rr1 rr2 = record {
    status = status_of ctx c;
    grade = g;
    direction = direction_of c.bullish;
    pattern_name = c.name;
    family = c.family;
    formed = c.formed;
    entry_zone = (prz_low c, prz_high c);
    entry_reference = s.round8 (entry_of ctx c);
    stop_loss = stop.0;
    invalidation_point = stop.1;
    stop_level = level;
    targets = targets;
    net_rr_tp1 = or_zero_float rr1;
    net_rr_tp2 = or_zero_float rr2;
    confluence_score = s.round_int score;
    confluence = factors;
    htf_trend = ctx.readings.trend;
    sharpe = clamp_sharpe s ctx.sharpe;
    regime = ctx.regime;
    position_multiplier = ctx.position_mult;
    trap_score = trap_score;
    tradable = not (str_eq g "C(参考)");
    width_pct = s.round4 (width_of c);
    stability_score = none;
  }

  -- the threshold of a formed pattern, and of a forming one
  abbrev pub authenticity_gate : Settings F → Candidate F → ℕ
  authenticity_gate s c = if c.formed then s.authenticity_veto else s.authenticity_halve

  -- the last stop, with the multipliers of the trap, the regime and the grade, and the ratios at it
  unfoldable pub finish :
      Settings F
      → ScoreContext F
      → Candidate F
      → String
      → Option F
      → F × F × F
      → ℕ
      → F
      → Dict F
      → String
      → Verdict (Signal F)
  unfolding entry_of signal_of compute_stop trap_stop_multiplier ◌>>=◌ called rr_of
  finish s ctx c level swing targets trap_score score factors g = do
    let entry = entry_of ctx c
    trap_m ← called (trap_stop_multiplier trap_score)
    stop ← called (
        compute_stop s.round8 s.tuning c ctx.readings.atr
          (last_options ctx level swing entry trap_m g))
    final1 ← rr_of s entry (stop.0) (targets.0)
    final2 ← rr_of s entry (stop.0) (targets.1)
    kept (signal_of s ctx c level g score factors targets trap_score stop final1 final2)

  -- the ratios at the first stop, the score and the grade
  unfoldable pub judge :
      Settings F
      → ScoreContext F
      → Candidate F
      → String
      → Option F
      → F
      → F × F × F
      → ℕ
      → Verdict (Signal F)
  unfolding entry_of width_of confluence_score grade_float finish ◌>>=◌ called not_none rr_of
  judge s ctx c level swing first_stop targets trap_score = do
    let entry = entry_of ctx c
    rr1 ← rr_of s entry first_stop (targets.0)
    rr2 ← rr_of s entry first_stop (targets.1)
    (raw, factors) ← called (
        confluence_score s.mean s.weights ctx.rows ctx.last c ctx.readings ctx.rsi_divs
          ctx.macd_divs)
    let score = graded_score s c raw
    graded ← called (
        grade_float score rr1 rr2 (is_with_trend c ctx.readings.trend)
          (is_against_trend c ctx.readings.trend) ctx.a_min (some (width_of c)))
    g ← not_none graded
    finish s ctx c level swing targets trap_score score factors g

  unfoldable pub score_candidate :
      Settings F → ScoreContext F → Candidate F → String → Verdict (Signal F)
  unfolding entry_of compute_swing_anchor prz_low prz_high compute_stop quant_trap_risk
      adverse_momentum_veto compute_targets direction_invariant_ok judge ◌>>=◌ ◌>>◌ reject_if
      require called
  score_candidate s ctx c level = do
    require (is_level level)
    require (gt ctx.readings.atr nought)
    reject_if (ltb ctx.volume_authenticity (authenticity_gate s c))
    let entry = entry_of ctx c
    let swing = compute_swing_anchor s ctx.rows ctx.readings.atr c.bullish
    first ←
        called (compute_stop s.round8 s.tuning c ctx.readings.atr (first_options level swing entry))
    let trap = quant_trap_risk s.quant_trap_lookback ctx.rows (prz_low c) (prz_high c) c.bullish
    reject_if (trap.1)
    reject_if (adverse_momentum_veto (direction_of c.bullish) ctx.sharpe s.adverse_sharpe_threshold)
    targets ← called (compute_targets s.round8 s.tuning c entry)
    reject_if (
        not (
          direction_invariant_ok (direction_of c.bullish) entry (first.0)
            (targets.0 ∷ targets.1 ∷ targets.2 ∷ [])))
    judge s ctx c level swing (first.0) targets (trap.0)
