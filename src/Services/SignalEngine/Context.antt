-- ===== src/Services/SignalEngine/Context.antt =====
-- What `score_candidate` of app/services/signal_engine.py reads, gives, and computes on the way.
use pyharmonics_gpt.Prelude.{
  ℕ, Bool, not, ◌&&◌, ◌||◌, Option, none, some, List, [], ◌∷◌, map, String, str_eq, ltb, length, ℤ,
  pos, negsuc, if◌then◌else◌,
}
use pyharmonics_gpt.Float.{Float, le, gt, add, sub, mul, div, lit, nought, max, min, neg}
use pyharmonics_gpt.Dict.{Dict}
use pyharmonics_gpt.Domain.Signals.{
  Candidate, Tuning, StopOptions, prz_low, prz_high, prz_state, is_swept, net_rr,
}
use pyharmonics_gpt.Domain.Validation.Frames.{Bar, tail_rows, greatest, least}
use pyharmonics_gpt.Services.SignalEngine.Confluence.{
  Divergence, Readings, Weights, is_reversal_candle,
}
use pyharmonics_gpt.Services.SignalEngine.Verdict.{Verdict, called}

-- The constants in force, and Python's functions: `round` to 8, to 4 and to no places, `int`, the mean
-- of a column, and the methods of `str`.
pub record Settings (F : Type 0) : Type 0 where
  pub tuning : Tuning F
  pub weights : Weights F
  pub authenticity_halve : ℕ
  pub authenticity_veto : ℕ
  pub adverse_sharpe_threshold : F
  pub quant_trap_lookback : ℕ
  pub pattern_base_score : Dict F
  pub stability_window : ℕ
  pub round8 : F → F
  pub round4 : F → F
  pub round_int : F → ℤ
  pub truncate : F → ℤ
  pub mean : List F → F
  pub lower : String → String
  pub starts_with : String → String → Bool

pub record ScoreContext (F : Type 0) : Type 0 where
  pub rows : List (Bar F)
  pub readings : Readings F
  pub sharpe : F
  pub regime : String
  pub a_min : ℕ
  pub position_mult : F
  pub price : F
  pub last : Bar F
  pub rsi_divs : List Divergence
  pub macd_divs : List Divergence
  pub volume_authenticity : ℕ
  pub stop_buffer_atr : Option F

pub record Signal (F : Type 0) : Type 0 where
  pub status : String
  pub grade : String
  pub direction : String
  pub pattern_name : String
  pub family : String
  pub formed : Bool
  pub entry_zone : F × F
  pub entry_reference : F
  pub stop_loss : F
  pub invalidation_point : F
  pub stop_level : String
  pub targets : F × F × F
  pub net_rr_tp1 : F
  pub net_rr_tp2 : F
  pub confluence_score : ℤ
  pub confluence : Dict F
  pub htf_trend : String
  pub sharpe : F
  pub regime : String
  pub position_multiplier : F
  pub trap_score : ℕ
  pub tradable : Bool
  pub width_pct : F
  pub stability_score : Option ℕ

abbrev pub direction_of : Bool → String
direction_of bullish = if bullish then "long" else "short"

abbrev pub is_level : String → Bool
is_level level = str_eq level "conservative" || str_eq level "standard" || str_eq level "aggressive"

-- `max(20, min(120, n))`
abbrev pub lookback_of : ℤ → ℕ
lookback_of (pos n) = let m = if ltb n 120 then n else 120 in if ltb 20 m then m else 20
lookback_of (negsuc n) = 20

module _ {F : Type 0} ⦃d : Float F⦄ where
  abbrev pub or_zero_float : Option F → F
  or_zero_float none = nought
  or_zero_float (some x) = x

  abbrev pub lowest : List (Bar F) → Option F
  lowest [] = none
  lowest (b ∷ bars) = some (least b.low (map (λ r. r.low) bars))

  abbrev pub highest : List (Bar F) → Option F
  highest [] = none
  highest (b ∷ bars) = some (greatest b.high (map (λ r. r.high) bars))

  abbrev pub range_of : List (Bar F) → F
  range_of bars = sub (or_zero_float (highest bars)) (or_zero_float (lowest bars))

  unfoldable pub compute_swing_anchor : Settings F → List (Bar F) → F → Bool → Option F
  unfolding tail_rows
  compute_swing_anchor s rows atr bullish =
      let bar_range = range_of (tail_rows 60 rows) in
      let lookback =
        lookback_of (s.truncate (mul (div (mul (lit 8 0) atr) bar_range) (lit 60 0))) in
      let window = tail_rows (if ltb (length rows) lookback then length rows else lookback) rows in
      if le atr nought || ltb (length rows) 20
      then none
      else if le bar_range nought
      then none
      else if bullish
      then lowest window
      else highest window

  -- the bump of the first family that the lowered name starts with
  unfoldable pub bump_of : (String → String → Bool) → String → Dict F → F
  bump_of starts_with name [] = nought
  bump_of starts_with name ((family, bump) ∷ families) =
      if starts_with name family then bump else bump_of starts_with name families

  unfoldable pub pattern_base_score_of : Settings F → String → F
  unfolding bump_of
  pattern_base_score_of s name =
      if str_eq name "" then nought else bump_of s.starts_with (s.lower name) s.pattern_base_score

  unfoldable pub status_of : ScoreContext F → Candidate F → String
  unfolding is_swept prz_state prz_low prz_high is_reversal_candle
  status_of ctx c =
      let swept = is_swept ctx.last.low ctx.last.high ctx.price (prz_low c) (prz_high c) in
      let status = prz_state ctx.price (prz_low c) (prz_high c) swept in
      if (str_eq status "in_prz" || str_eq status "swept") && is_reversal_candle ctx.last c.bullish
      then "confirmed"
      else status

  unfoldable pub entry_of : ScoreContext F → Candidate F → F
  unfolding status_of prz_low prz_high
  entry_of ctx c =
      if not (str_eq (status_of ctx c) "approaching")
      then ctx.price
      else if c.bullish
      then prz_high c
      else prz_low c

  -- the options of the first stop, and of the last
  abbrev pub first_options : String → Option F → F → StopOptions F
  first_options level swing entry = record {
    level = level;
    swing_anchor = swing;
    entry = some entry;
    trap_multiplier = lit 1 0;
    regime = "normal";
    grade = none;
    stop_buffer_atr = none;
  }

  abbrev pub last_options : ScoreContext F → String → Option F → F → F → String → StopOptions F
  last_options ctx level swing entry trap_m g = record {
    level = level;
    swing_anchor = swing;
    entry = some entry;
    trap_multiplier = trap_m;
    regime = ctx.regime;
    grade = some g;
    stop_buffer_atr = ctx.stop_buffer_atr;
  }

  unfoldable pub rr_of : Settings F → F → F → F → Verdict (Option F)
  unfolding called
  rr_of s entry stop target =
      called (net_rr s.round4 s.tuning.fee_rate s.tuning.slippage_rate entry stop target)

  -- the score that is graded: with the bump, in the range of 0 to 100
  abbrev pub graded_score : Settings F → Candidate F → F → F
  unfolding pattern_base_score_of
  graded_score s c score = max nought (min (lit 100 0) (add score (pattern_base_score_of s c.name)))

  unfoldable pub width_of : Candidate F → F
  unfolding prz_low prz_high
  width_of c =
      let mid = div (add (prz_low c) (prz_high c)) (lit 2 0) in
      if gt mid nought then div (sub (prz_high c) (prz_low c)) mid else nought

  abbrev pub is_with_trend : Candidate F → String → Bool
  is_with_trend c trend =
      (c.bullish && str_eq trend "bullish") || (not c.bullish && str_eq trend "bearish")

  abbrev pub is_against_trend : Candidate F → String → Bool
  is_against_trend c trend =
      (c.bullish && str_eq trend "bearish") || (not c.bullish && str_eq trend "bullish")

  abbrev pub clamp_sharpe : Settings F → F → F
  clamp_sharpe s sharpe = s.round4 (max (neg (lit 10 0)) (min (lit 10 0) sharpe))
