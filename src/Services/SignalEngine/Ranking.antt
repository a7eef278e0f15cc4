-- ===== src/Services/SignalEngine/Ranking.antt =====
-- `_prepare_score_context`, `rank_signals`, `apply_stability` and `build_signal`,
-- app/services/signal_engine.py. The ATR, the RSI, the trend, the Sharpe ratio and the MACD, which
-- pandas computes, are given with the frame.
use pyharmonics_gpt.Prelude.{
  ℕ, drop, first, ◌-◌, Bool, true, false, not, ◌&&◌, ◌||◌, Option, none, some, List, [], ◌∷◌,
  String, str_eq, ltb, leb, length, ℤ, ltb_ℤ, if◌then◌else◌,
}
use pyharmonics_gpt.Float.{Float, le, mul, lit, nought}
use pyharmonics_gpt.Domain.Signals.{Candidate}
use pyharmonics_gpt.Domain.Validation.{filter_candidates, volatility_multiplier, stability_verdict}
use pyharmonics_gpt.Domain.Validation.Frames.{Bar, Numpy, volume_authenticity, quant_regime}
use pyharmonics_gpt.Services.SignalEngine.Confluence.{Divergence}
use pyharmonics_gpt.Services.SignalEngine.Context.{Settings, ScoreContext, Signal, is_level}
use pyharmonics_gpt.Services.SignalEngine.Verdict.{
  Verdict, raised, rejected, kept, ◌>>=◌, ◌>>◌, reject_if, require, called, not_none,
}
use pyharmonics_gpt.Services.SignalEngine.Scoring.{score_candidate}

-- A frame with what pandas computes of it.
pub record Frame (F : Type 0) : Type 0 where
  pub rows : List (Bar F)
  pub last : Bar F
  pub close_times : Option (List ℕ)
  pub atr : F
  pub rsi : F
  pub trend : String
  pub sharpe : F
  pub price : F
  pub rsi_recent : Option (F × F)
  pub macd_line : F
  pub macd_histogram : F
  pub macd_histogram_prev : F

-- The further constants in force. The three windows are bound when app/domain/validation.py is loaded.
pub record EngineSettings (F : Type 0) : Type 0 where
  pub scoring : Settings F
  pub numpy : Numpy F
  pub volume_authenticity_window : ℕ
  pub quant_regime_window : ℕ
  pub regime_moderate : ℤ
  pub regime_high : ℤ
  pub a_grade_min : ℕ
  pub a_grade_min_high_quant : ℕ
  pub high_quant_position_mult : F
  pub target_atr_pct : F
  pub min_candles : ℕ

abbrev pub grade_rank : String → ℕ
grade_rank g = if str_eq g "A" then 3 else if str_eq g "B" then 2 else if str_eq g "C" then 1 else 0

-- `df.iloc[:-n]`, which is empty for n = 0
abbrev pub without_last : {A : Type 0} → ℕ → List A → List A
without_last n xs = if leb n 0 then [] else first (length xs - n) xs

-- the two names; an exception of either leaves both unknown
abbrev pub names_of :
    Option (Option String) → Option (Option String) → Option String × Option String
names_of (some sub1) (some sub2) = (sub1, sub2)
names_of (some sub1) none = (none, none)
names_of none other = (none, none)

-- `(g, s, f) > (g2, s2, f2)` on the triples of the grade, the score and the formed flag
unfoldable pub beats : ℕ → ℤ → Bool → ℕ → ℤ → Bool → Bool
beats g s f g2 s2 f2 =
    if ltb g2 g
    then true
    else if ltb g g2
    then false
    else if ltb_ℤ s2 s
    then true
    else if ltb_ℤ s s2
    then false
    else f && not f2

module _ {F : Type 0} where
  -- `rank > best_rank`
  unfoldable pub outranks : Signal F → Signal F → Bool
  unfolding beats
  outranks a b =
      beats (grade_rank a.grade) a.confluence_score a.formed (grade_rank b.grade) b.confluence_score
        b.formed

  -- the loop, with the best so far; the first signal outranks the initial (-1, -1.0, False)
  unfoldable pub best_from : Option (Signal F) → List (Signal F) → Option (Signal F)
  unfolding outranks
  best_from best [] = best
  best_from none (s ∷ signals) = best_from (some s) signals
  best_from (some best) (s ∷ signals) =
      best_from (some (if outranks s best then s else best)) signals

  unfoldable pub rank_signals : List (Signal F) → Option (Signal F)
  unfolding best_from
  rank_signals signals = best_from none signals

  unfoldable pub recheck :
      ℕ → List (Bar F) → (List (Bar F) → Option (Option String)) → Signal F → Option (Signal F)
  unfolding stability_verdict
  recheck window rows detector best =
      let (sub1, sub2) =
        names_of (detector (without_last window rows)) (detector (drop window rows)) in
      let (score, suspect) = stability_verdict (some best.pattern_name) sub1 sub2 in
      if suspect then none else some (record best { stability_score = some score })

  abbrev pub is_rechecked : Signal F → Bool
  is_rechecked best = str_eq best.grade "A" || str_eq best.grade "B"

  -- a detector gives a name or None, or raises
  unfoldable pub apply_stability :
      ℕ
      → List (Bar F)
      → Option (Signal F)
      → Option (List (Bar F) → Option (Option String))
      → Option (Signal F)
  unfolding recheck
  apply_stability window rows none detector = none
  apply_stability window rows (some best) none = some best
  apply_stability window rows (some best) (some detector) =
      if is_rechecked best then recheck window rows detector best else some best

module _ {F : Type 0} ⦃d : Float F⦄ where
  unfoldable pub prepare_score_context :
      EngineSettings F
      → Frame F
      → List Divergence
      → List Divergence
      → Option F
      → Option (ScoreContext F)
  unfolding volume_authenticity quant_regime volatility_multiplier
  prepare_score_context e f rsi_divs macd_divs stop_buffer_atr =
      let s = e.scoring in
      let auth = volume_authenticity e.numpy s.round_int e.volume_authenticity_window f.rows in
      let regime =
        (quant_regime e.numpy s.round_int e.quant_regime_window e.regime_moderate e.regime_high
          f.rows).1 in
      let high = str_eq regime "high_quant" in
      let regime_mult = if high then e.high_quant_position_mult else lit 1 0 in
      if le f.atr nought
      then none
      else some (record {
        rows = f.rows;
        readings = record {
          atr = f.atr;
          rsi = f.rsi;
          trend = f.trend;
          pa_scale = if ltb auth s.authenticity_halve then lit 5 1 else lit 1 0;
          rsi_recent = f.rsi_recent;
          macd_line = f.macd_line;
          macd_histogram = f.macd_histogram;
          macd_histogram_prev = f.macd_histogram_prev;
        };
        sharpe = f.sharpe;
        regime = regime;
        a_min = if high then e.a_grade_min_high_quant else e.a_grade_min;
        position_mult =
            s.round4
              (mul (volatility_multiplier s.round4 f.atr f.price e.target_atr_pct) regime_mult);
        price = f.price;
        last = f.last;
        rsi_divs = rsi_divs;
        macd_divs = macd_divs;
        volume_authenticity = auth;
        stop_buffer_atr = stop_buffer_atr;
      })

  -- the loop over the candidates that are left
  unfoldable pub score_all :
      Settings F → ScoreContext F → String → List (Candidate F) → Verdict (List (Signal F))
  unfolding score_candidate ◌>>=◌
  score_all s ctx level [] = kept []
  score_all s ctx level (c ∷ candidates) =
      let rest = score_all s ctx level candidates in
      elim (score_candidate s ctx c level) [
        | raised ↦ raised
        | rejected ↦ rest
        | kept signal ↦ rest >>= λ signals. kept (signal ∷ signals)
      ]

  abbrev pub returned : Option (Signal F) → Verdict (Signal F)
  returned none = rejected
  returned (some signal) = kept signal

  unfoldable pub build_signal :
      EngineSettings F
      → Option (Frame F)
      → String
      → List (Candidate F)
      → List Divergence
      → List Divergence
      → Option (List (Bar F) → Option (Option String))
      → String
      → Option F
      → Verdict (Signal F)
  unfolding prepare_score_context score_all filter_candidates rank_signals apply_stability ◌>>=◌
      ◌>>◌ require reject_if called not_none
  build_signal e none interval candidates rsi_divs macd_divs detector level stop_buffer_atr = do
    require (not (str_eq interval ""))
    require (is_level level)
    rejected
  build_signal e (some f) interval candidates rsi_divs macd_divs detector level stop_buffer_atr = do
    require (not (str_eq interval ""))
    require (is_level level)
    reject_if (ltb (length f.rows) e.min_candles || ltb (length candidates) 1)
    ctx ← not_none (prepare_score_context e f rsi_divs macd_divs stop_buffer_atr)
    (valid, refused) ← called (
        filter_candidates e.scoring.round8 e.scoring.tuning candidates ctx.price ctx.readings.atr
          f.close_times)
    scored ← score_all e.scoring ctx level valid
    returned (apply_stability e.scoring.stability_window f.rows (rank_signals scored) detector)
