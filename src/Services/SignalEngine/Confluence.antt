-- ===== src/Services/SignalEngine/Confluence.antt =====
-- `confluence_score`, app/services/signal_engine.py. The rows of the frame are from the oldest on; the
-- mean of the volumes is a parameter.
use pyharmonics_gpt.Prelude.{
  ℕ, Bool, false, not, ◌&&◌, ◌||◌, Option, none, some, List, [], ◌∷◌, map, String, str_eq, any,
  if◌then◌else◌,
}
use pyharmonics_gpt.Float.{
  Float, lt, le, gt, ge, add, sub, mul, div, lit, nought, abs, neg, max, min,
}
use pyharmonics_gpt.Dict.{Dict, lookup}
use pyharmonics_gpt.Domain.Signals.{Candidate, prz_low, prz_high}
use pyharmonics_gpt.Domain.Validation.Frames.{Bar, tail_rows, greatest, least}

-- A divergence of the adapter: its "name" and whether it is bullish.
pub record Divergence : Type 0 where
  pub name : String
  pub bullish : Bool

-- The figures of the context that the score reads.
pub record Readings (F : Type 0) : Type 0 where
  pub atr : F
  pub rsi : F
  pub trend : String
  pub pa_scale : F
  -- the first and the last of the last five values of the RSI series, if it has two and both are there
  pub rsi_recent : Option (F × F)
  pub macd_line : F
  pub macd_histogram : F
  pub macd_histogram_prev : F

-- The constants in force that the score reads.
pub record Weights (F : Type 0) : Type 0 where
  pub confluence_weights : Dict F
  pub volume_ma_window : ℕ
  pub swing_lookback : ℕ
  pub atr_prz_sweep : F

unfoldable pub has_divergence : String → Bool → List Divergence → Bool
has_divergence name bullish divs =
    any (λ d. str_eq d.name name && (if bullish then d.bullish else not d.bullish)) divs

unfoldable pub aligned_with : String → Bool → Bool
aligned_with trend bullish = str_eq trend (if bullish then "bullish" else "bearish")

module _ {F : Type 0} ⦃d : Float F⦄ where
  -- `cw.get(key, default)`
  unfoldable pub weight : Dict F → String → F → F
  unfolding lookup
  weight cw key default = elim (lookup key cw) [ none ↦ default | some w ↦ w ]

  unfoldable pub is_reversal_candle : Bar F → Bool → Bool
  is_reversal_candle row bullish =
      let rng = sub row.high row.low in
      if le rng nought
      then false
      else if bullish
      then gt row.close row.open_price
        && ge (sub (min row.open_price row.close) row.low) (mul (lit 5 1) rng)
      else lt row.close row.open_price
        && ge (sub row.high (max row.open_price row.close)) (mul (lit 5 1) rng)

  unfoldable pub is_rising : Option (F × F) → Bool
  is_rising none = false
  is_rising (some (oldest, newest)) = gt newest oldest

  -- the score of the zone, and the two corrections
  unfoldable pub rsi_zone_score : F → Bool → Option (F × F) → F
  unfolding is_rising
  rsi_zone_score rsi bullish recent =
      let zone : F =
        if bullish
        then (if le rsi (lit 30 0)
            then lit 7 0
            else if le rsi (lit 40 0)
            then lit 5 0
            else if le rsi (lit 50 0)
            then lit 2 0
            else nought)
        else (if ge rsi (lit 70 0)
            then lit 7 0
            else if ge rsi (lit 60 0)
            then lit 5 0
            else if ge rsi (lit 50 0)
            then lit 2 0
            else nought) in
      let turning = if bullish then is_rising recent else not (is_rising recent) in
      let confirmed = if gt zone nought && turning then add zone (lit 3 0) else zone in
      let caution = if bullish then ge rsi (lit 60 0) else le rsi (lit 40 0) in
      if caution then sub confirmed (lit 3 0) else confirmed

  unfoldable pub price_action : (List F → F) → Weights F → List (Bar F) → Bar F → Bool → F
  unfolding is_reversal_candle tail_rows
  price_action mean w rows last bullish =
      let vol_ma = mean (map (λ b. b.volume) (tail_rows w.volume_ma_window rows)) in
      if not (is_reversal_candle last bullish)
      then nought
      else if gt vol_ma nought && ge last.volume (mul (lit 15 1) vol_ma)
      then lit 25 0
      else lit 15 0

  -- a regular divergence with the signal, or else a hidden one, which speaks against it
  unfoldable pub divergence_points : List Divergence → Bool → F → F
  unfolding has_divergence
  divergence_points divs bullish regular =
      if has_divergence "Regular" bullish divs
      then regular
      else if has_divergence "Hidden" bullish divs
      then neg (lit 5 0)
      else nought

  -- `max(-cap, min(cap, x))`
  abbrev pub capped : F → F → F
  capped cap x = max (neg cap) (min cap x)

  -- the extreme of the lows or the highs of the lookback; `none` if there is no row
  unfoldable pub swing_of : ℕ → List (Bar F) → Bool → Option F
  unfolding tail_rows
  swing_of lookback rows bullish = elim (tail_rows lookback rows) [
    | [] ↦ none
    | b ∷ bars ↦ some (
        if bullish
        then least b.low (map (λ r. r.low) bars)
        else greatest b.high (map (λ r. r.high) bars))
  ]

  -- a NaN swing is not near
  unfoldable pub is_near : F → F → Option F → Bool
  is_near mid reach none = false
  is_near mid reach (some swing) = le (abs (sub mid swing)) reach

  -- The factors, in the order in which they are put into the dict.
  unfoldable pub confluence_factors :
      (List F → F)
      → Weights F
      → List (Bar F)
      → Bar F
      → Candidate F
      → Readings F
      → List Divergence
      → List Divergence
      → Dict F
  unfolding weight rsi_zone_score price_action divergence_points swing_of is_near aligned_with
      has_divergence prz_low prz_high
  confluence_factors mean w rows last c r rsi_divs macd_divs =
      let cw = w.confluence_weights in
      let bullish = c.bullish in
      let htf_weight = weight cw "htf_trend" (lit 25 0) in
      let rsi_cap = weight cw "rsi" (lit 15 0) in
      let macd_cap = weight cw "macd" (lit 10 0) in
      let rsi_score =
        add (divergence_points rsi_divs bullish (lit 8 0))
          (rsi_zone_score r.rsi bullish r.rsi_recent) in
      let macd_score = divergence_points macd_divs bullish (lit 10 0) in
      let mid = div (add (prz_low c) (prz_high c)) (lit 2 0) in
      let has_rsi = has_divergence "Regular" bullish rsi_divs in
      let has_macd = has_divergence "Regular" bullish macd_divs in
      let below = if bullish then lt r.macd_line nought else gt r.macd_line nought in
      let growing =
        if bullish
        then gt r.macd_histogram nought && gt r.macd_histogram r.macd_histogram_prev
        else lt r.macd_histogram nought && lt r.macd_histogram r.macd_histogram_prev in
      (
        "price_action",
        mul
            (mul (div (price_action mean w rows last bullish) (lit 25 0))
              (weight cw "price_action" (lit 25 0)))
            r.pa_scale,
      )
      ∷ (
        "htf_trend",
        if aligned_with r.trend bullish
            then htf_weight
            else if str_eq r.trend "unknown"
            then mul htf_weight (lit 4 1)
            else nought,
      )
      ∷ ("rsi", capped rsi_cap (mul (div rsi_score (lit 15 0)) rsi_cap))
      ∷ (
        "structure",
        if is_near mid (mul w.atr_prz_sweep r.atr) (swing_of w.swing_lookback rows bullish)
            then weight cw "structure" (lit 15 0)
            else nought,
      )
      ∷ ("macd", capped macd_cap (mul (div macd_score (lit 10 0)) macd_cap))
      ∷ ("macd_zero", if below then lit 8 0 else neg (lit 4 0))
      ∷ (
        "dual_confirm",
        if has_rsi && has_macd then lit 8 0 else if has_rsi || has_macd then lit 3 0 else nought,
      )
      ∷ ("histogram", if growing then lit 5 0 else nought)
      ∷ ("funding", mul (weight cw "funding" (lit 10 0)) (lit 5 1))
      ∷ []

  -- `sum(factors.values())`
  unfoldable pub sum_factors : F → Dict F → F
  sum_factors acc [] = acc
  sum_factors acc ((k, v) ∷ factors) = sum_factors (add acc v) factors

  -- the conditions of @require that the types leave open
  unfoldable pub confluence_requires : Candidate F → Readings F → Bool
  unfolding prz_low prz_high
  confluence_requires c r =
      ge r.atr nought
      && (le nought r.rsi && le r.rsi (lit 100 0))
      && (str_eq r.trend "bullish" || str_eq r.trend "bearish" || str_eq r.trend "unknown")
      && (le nought r.pa_scale && le r.pa_scale (lit 2 0))
      && (gt (prz_low c) nought && gt (prz_high c) nought)

  -- `none` is a contract violation
  unfoldable pub confluence_score :
      (List F → F)
      → Weights F
      → List (Bar F)
      → Bar F
      → Candidate F
      → Readings F
      → List Divergence
      → List Divergence
      → Option (F × Dict F)
  unfolding confluence_factors sum_factors confluence_requires
  confluence_score mean w rows last c r rsi_divs macd_divs =
      let factors = confluence_factors mean w rows last c r rsi_divs macd_divs in
      if confluence_requires c r then some (sum_factors nought factors, factors) else none
