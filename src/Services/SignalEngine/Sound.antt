-- ===== src/Services/SignalEngine/Sound.antt =====
-- What a signal that `score_candidate` gives has passed.
use pyharmonics_gpt.Prelude.{
  ℕ, ◌≤◌, ◌≡◌, sym, subst, ap, ◌∙◌, Bool, true, false, not, arith, Option, some, [], ◌∷◌, String,
  ltb,
}
use pyharmonics_gpt.Float.{Float, gt, ge, lit, nought}
use pyharmonics_gpt.Dict.{Dict}
use pyharmonics_gpt.Domain.Signals.{
  Candidate, prz_low, prz_high, compute_stop, compute_targets, grade_float,
}
use pyharmonics_gpt.Domain.Signals.Grades.{rank, IsEarned, graded-IsEarned}
use pyharmonics_gpt.Domain.Validation.{
  direction_invariant_ok, trap_stop_multiplier, adverse_momentum_veto,
}
use pyharmonics_gpt.Domain.Validation.Frames.{quant_trap_risk}
use pyharmonics_gpt.Services.SignalEngine.Confluence.{confluence_score}
use pyharmonics_gpt.Services.SignalEngine.Context.{
  Settings, ScoreContext, Signal, direction_of, is_level, first_options, last_options, rr_of,
  graded_score, width_of, is_with_trend, is_against_trend, entry_of, compute_swing_anchor,
}
use pyharmonics_gpt.Services.SignalEngine.Verdict.{
  kept, kept-injective, bind_kept, rejected_kept, required_kept, called_kept, not_none_kept,
}
use pyharmonics_gpt.Services.SignalEngine.Scoring.{
  authenticity_gate, signal_of, finish, judge, score_candidate,
}

not-false : (b : Bool) → not b ≡ false → b ≡ true
not-false b h = ground (arith, h)

module _ {F : Type 0} ⦃d : Float F⦄ where
  -- the last stop of a signal and the ratios at it
  pub record Finished (s : Settings F) (ctx : ScoreContext F) (c : Candidate F) (level : String)
      (swing : Option F) (targets : F × F × F) (trap_score : ℕ) (score : F) (factors : Dict F)
      (g : String) (signal : Signal F) : Type 0 where
    pub trap_m : F
    pub stop : F × F
    pub final1 : Option F
    pub final2 : Option F
    pub last_stop :
        compute_stop s.round8 s.tuning c ctx.readings.atr
          (last_options ctx level swing (entry_of ctx c) trap_m g)
        ≡ some stop
    pub last1 : rr_of s (entry_of ctx c) (stop.0) (targets.0) ≡ kept final1
    pub last2 : rr_of s (entry_of ctx c) (stop.0) (targets.1) ≡ kept final2
    pub result :
        signal_of s ctx c level g score factors targets trap_score stop final1 final2 ≡ signal

  finish-Finished :
      (s : Settings F) (ctx : ScoreContext F) (c : Candidate F) (level : String) (swing : Option F)
      (targets : F × F × F) (trap_score : ℕ) (score : F) (factors : Dict F) (g : String)
      (signal : Signal F)
      → finish s ctx c level swing targets trap_score score factors g ≡ kept signal
      → Finished s ctx c level swing targets trap_score score factors g signal
  unfolding finish
  finish-Finished s ctx c level swing targets trap_score score factors g signal e =
      let entry = entry_of ctx c in
      let (trap_m, widened, e1) = called_kept (trap_stop_multiplier trap_score) _ signal e in
      let (stop, last_stop, e2) =
        called_kept
          (compute_stop s.round8 s.tuning c ctx.readings.atr
            (last_options ctx level swing entry trap_m g))
          _ signal e1 in
      let (final1, last1, e3) = bind_kept (rr_of s entry (stop.0) (targets.0)) _ signal e2 in
      let (final2, last2, e4) = bind_kept (rr_of s entry (stop.0) (targets.1)) _ signal e3 in
      record {
        trap_m = trap_m;
        stop = stop;
        final1 = final1;
        final2 = final2;
        last_stop = last_stop;
        last1 = last1;
        last2 = last2;
        result = kept-injective _ _ e4;
      }

  -- the ratios at the first stop, and the grade of them
  pub record Judged (s : Settings F) (ctx : ScoreContext F) (c : Candidate F) (level : String)
      (swing : Option F) (first_stop : F) (targets : F × F × F) (trap_score : ℕ) (signal : Signal F)
      : Type 0 where
    pub rr1 : Option F
    pub rr2 : Option F
    pub raw : F
    pub factors : Dict F
    pub g : String
    pub ratio1 : rr_of s (entry_of ctx c) first_stop (targets.0) ≡ kept rr1
    pub ratio2 : rr_of s (entry_of ctx c) first_stop (targets.1) ≡ kept rr2
    pub graded :
        grade_float
          (graded_score s c raw)
          rr1
          rr2
          (is_with_trend c ctx.readings.trend)
          (is_against_trend c ctx.readings.trend)
          ctx.a_min
          (some (width_of c))
        ≡ some (some g)
    pub finished :
        Finished s ctx c level swing targets trap_score (graded_score s c raw) factors g signal

  judge-Judged :
      (s : Settings F) (ctx : ScoreContext F) (c : Candidate F) (level : String) (swing : Option F)
      (first_stop : F) (targets : F × F × F) (trap_score : ℕ) (signal : Signal F)
      → judge s ctx c level swing first_stop targets trap_score ≡ kept signal
      → Judged s ctx c level swing first_stop targets trap_score signal
  unfolding judge
  judge-Judged s ctx c level swing first_stop targets trap_score signal e =
      let entry = entry_of ctx c in
      let (rr1, ratio1, e1) = bind_kept (rr_of s entry first_stop (targets.0)) _ signal e in
      let (rr2, ratio2, e2) = bind_kept (rr_of s entry first_stop (targets.1)) _ signal e1 in
      let (scored, is_scored, e3) =
        called_kept
          (confluence_score s.mean s.weights ctx.rows ctx.last c ctx.readings ctx.rsi_divs
            ctx.macd_divs)
          _ signal e2 in
      let score = graded_score s c (scored.0) in
      let (maybe_g, is_graded, e4) =
        called_kept
          (grade_float score rr1 rr2 (is_with_trend c ctx.readings.trend)
            (is_against_trend c ctx.readings.trend) ctx.a_min (some (width_of c)))
          _ signal e3 in
      let (g, is_g, e5) = not_none_kept maybe_g _ signal e4 in
      record {
        rr1 = rr1;
        rr2 = rr2;
        raw = scored.0;
        factors = scored.1;
        g = g;
        ratio1 = ratio1;
        ratio2 = ratio2;
        graded = is_graded ∙ ap some is_g;
        finished =
            finish-Finished s ctx c level swing targets trap_score score (scored.1) g signal e5;
      }

  abbrev pub swing_at : Settings F → ScoreContext F → Candidate F → Option F
  swing_at s ctx c = compute_swing_anchor s ctx.rows ctx.readings.atr c.bullish

  abbrev pub trap_at : Settings F → ScoreContext F → Candidate F → ℕ × Bool
  trap_at s ctx c =
      quant_trap_risk s.quant_trap_lookback ctx.rows (prz_low c) (prz_high c) c.bullish

  -- the gates that a signal has passed, its first stop, and how it was judged
  pub record Scored (s : Settings F) (ctx : ScoreContext F) (c : Candidate F) (level : String)
      (signal : Signal F) : Type 0 where
    pub first : F × F
    pub targets : F × F × F
    pub authentic : ltb ctx.volume_authenticity (authenticity_gate s c) ≡ false
    pub no_trap : (trap_at s ctx c).1 ≡ false
    pub no_knife :
        adverse_momentum_veto (direction_of c.bullish) ctx.sharpe s.adverse_sharpe_threshold ≡ false
    pub first_stop :
        compute_stop s.round8 s.tuning c ctx.readings.atr
          (first_options level (swing_at s ctx c) (entry_of ctx c))
        ≡ some first
    pub in_order :
        direction_invariant_ok
          (direction_of c.bullish)
          (entry_of ctx c)
          (first.0)
          (targets.0 ∷ targets.1 ∷ targets.2 ∷ [])
        ≡ true
    pub judged :
        Judged s ctx c level (swing_at s ctx c) (first.0) targets ((trap_at s ctx c).0) signal

  pub score_candidate-Scored :
      (s : Settings F) (ctx : ScoreContext F) (c : Candidate F) (level : String) (signal : Signal F)
      → score_candidate s ctx c level ≡ kept signal
      → Scored s ctx c level signal
  unfolding score_candidate
  score_candidate-Scored s ctx c level signal e =
      let entry = entry_of ctx c in
      let atr = ctx.readings.atr in
      let (l, e1) = required_kept (is_level level) _ signal e in
      let (p, e2) = required_kept (gt atr nought) _ signal e1 in
      let (authentic, e3) =
        rejected_kept (ltb ctx.volume_authenticity (authenticity_gate s c)) _ signal e2 in
      let (first, first_stop, e4) =
        called_kept
          (compute_stop s.round8 s.tuning c atr (first_options level (swing_at s ctx c) entry)) _
          signal e3 in
      let (no_trap, e5) = rejected_kept ((trap_at s ctx c).1) _ signal e4 in
      let (no_knife, e6) =
        rejected_kept
          (adverse_momentum_veto (direction_of c.bullish) ctx.sharpe s.adverse_sharpe_threshold) _
          signal e5 in
      let (targets, found, e7) =
        called_kept (compute_targets s.round8 s.tuning c entry) _ signal e6 in
      let (in_order, e8) =
        rejected_kept
          (not (
            direction_invariant_ok (direction_of c.bullish) entry (first.0)
              (targets.0 ∷ targets.1 ∷ targets.2 ∷ [])))
          _ signal e7 in
      record {
        first = first;
        targets = targets;
        authentic = authentic;
        no_trap = no_trap;
        no_knife = no_knife;
        first_stop = first_stop;
        in_order = not-false _ in_order;
        judged =
            judge-Judged s ctx c level (swing_at s ctx c) (first.0) targets ((trap_at s ctx c).0)
              signal e8;
      }

  -- the grade of a signal is the one that it was judged to have
  grade_is :
      (s : Settings F) (ctx : ScoreContext F) (c : Candidate F) (level : String) (signal : Signal F)
      (h : Scored s ctx c level signal)
      → h.judged.g ≡ signal.grade
  unfolding signal_of
  grade_is s ctx c level signal h = ap (λ (x : Signal F). x.grade) h.judged.finished.result

  -- A signal of grade A or B comes from a candidate that has passed the gates of volume, trap and
  -- momentum, with its entry, first stop and targets in order; and the grade is earned, by the clamped
  -- score and by the ratios, net of costs, that the first stop gives: at least 1.0 at the first target
  -- and 1.5 at the second, not against the higher timeframe, in a zone narrower than 4%.
  pub score_candidate-IsEarned :
      (s : Settings F) (ctx : ScoreContext F) (c : Candidate F) (level : String) (signal : Signal F)
      → score_candidate s ctx c level ≡ kept signal
      → 2 ≤ rank (some signal.grade)
      → (h : Scored s ctx c level signal) × IsEarned
          (λ n. ge (graded_score s c h.judged.raw) (lit n 0))
          h.judged.rr1
          h.judged.rr2
          (is_with_trend c ctx.readings.trend)
          (is_against_trend c ctx.readings.trend)
          ctx.a_min
          (some (width_of c))
  unfolding grade_float
  score_candidate-IsEarned s ctx c level signal e r =
      let h = score_candidate-Scored s ctx c level signal e in
      (
        h,
        graded-IsEarned _ (λ n. ge (graded_score s c h.judged.raw) (lit n 0)) h.judged.rr1
            h.judged.rr2 (is_with_trend c ctx.readings.trend)
            (is_against_trend c ctx.readings.trend) ctx.a_min (some (width_of c)) (some h.judged.g)
            h.judged.graded
            (subst (λ g. 2 ≤ rank (some g)) (sym (grade_is s ctx c level signal h)) r),
      )
