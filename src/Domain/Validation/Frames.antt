-- ===== src/Domain/Validation/Frames.antt =====
-- The scores of a frame of candles, app/domain/validation.py: `quant_trap_risk`, `volume_authenticity`
-- and `quant_regime`, on its rows from the oldest on; the reasons, which are texts, are left out. The
-- values are numbers. NumPy's reductions, and `int(round(x))`, are parameters.
use pyharmonics_gpt.Prelude.{
  ℕ, drop, first, ◌+◌, ◌-◌, Bool, true, false, not, ◌&&◌, ◌||◌, List, [], ◌∷◌, map, String, any,
  filter, length, ltb, leb, ℤ, pos, leb_ℤ, if◌then◌else◌,
}
use pyharmonics_gpt.Float.{Float, lt, le, gt, add, sub, mul, div, lit, nought, abs, max, min}

pub record Bar (F : Type 0) : Type 0 where
  pub open_price : F
  pub high : F
  pub low : F
  pub close : F
  pub volume : F

-- `mean`, `sum` and `std` of an array
pub record Numpy (F : Type 0) : Type 0 where
  pub mean : List F → F
  pub total : List F → F
  pub std : List F → F

-- `df.tail(n)`
unfoldable pub tail_rows : {A : Type 0} → ℕ → List A → List A
tail_rows n xs = drop (length xs - n) xs

abbrev pub count : {A : Type 0} → (A → Bool) → List A → ℕ
count p xs = length (filter p xs)

-- `int(min(100, max(0, n)))`
abbrev pub percent : ℤ → ℕ
percent (pos n) = if ltb n 100 then n else 100
percent n = 0

-- the two deductions, and the clamp to 10 to 90
unfoldable pub penalised : ℕ → Bool → Bool → ℕ
penalised score hunted climbed =
    let a = if hunted then score - 15 else score in
    let b = if climbed then a - 15 else a in
    let c = if ltb b 10 then 10 else b in if ltb 90 c then 90 else c

module _ {F : Type 0} ⦃d : Float F⦄ where
  abbrev pub greatest : F → List F → F
  greatest best [] = best
  greatest best (x ∷ xs) = greatest (max best x) xs

  abbrev pub least : F → List F → F
  least best [] = best
  least best (x ∷ xs) = least (min best x) xs

  -- a bar that pierces an extreme of the bars before it and closes back
  unfoldable pub is_false_break : List (Bar F) → Bar F → Bool
  is_false_break [] b = false
  is_false_break (p ∷ window) b =
      let prev_high = greatest p.high (map (λ w. w.high) window) in
      let prev_low = least p.low (map (λ w. w.low) window) in
      (gt b.high (mul prev_high (lit 101 2)) && lt b.close prev_high)
      || (lt b.low (mul prev_low (lit 99 2)) && gt b.close prev_low)

  -- `prev` has the bars before, the newest first
  unfoldable pub false_breaks : List (Bar F) → List (Bar F) → ℕ
  unfolding is_false_break
  false_breaks prev [] = 0
  false_breaks prev (b ∷ rest) =
      (if leb 5 (length prev) && is_false_break (first 5 prev) b then 1 else 0)
      + false_breaks (b ∷ prev) rest

  unfoldable pub is_stop_hunt : List (Bar F) → Bar F → Bar F → Bool
  is_stop_hunt [] b next = false
  is_stop_hunt (p ∷ window) b next =
      lt b.low (mul (least p.low (map (λ w. w.low) window)) (lit 995 3)) && gt next.close b.high

  unfoldable pub stop_hunts : List (Bar F) → List (Bar F) → ℕ
  unfolding is_stop_hunt
  stop_hunts prev [] = 0
  stop_hunts prev (b ∷ []) = 0
  stop_hunts prev (b ∷ next ∷ rest) =
      (if leb 3 (length prev) && is_stop_hunt (first 3 prev) b next then 1 else 0)
      + stop_hunts (b ∷ prev) (next ∷ rest)

  unfoldable pub is_climax : Bar F → Bar F → Bool
  is_climax p b =
      let price = if gt b.close nought then b.close else b.open_price in
      gt p.volume nought
      && gt b.volume (mul (lit 2 0) p.volume)
      && gt price nought
      && lt (div (abs (sub b.close b.open_price)) price) (lit 15 3)

  unfoldable pub climaxes : List (Bar F) → ℕ
  unfolding is_climax
  climaxes [] = 0
  climaxes (p ∷ []) = 0
  climaxes (p ∷ b ∷ rest) = (if is_climax p b then 1 else 0) + climaxes (b ∷ rest)

  -- a wick into the zone, and a close through it
  unfoldable pub fails_zone : F → F → Bool → Bar F → Bool
  fails_zone prz_low prz_high bullish b =
      if bullish
      then le prz_low b.low && le b.low prz_high && lt b.close prz_low
      else le prz_low b.high && le b.high prz_high && gt b.close prz_high

  abbrev pub rate : ℕ → ℕ → F
  rate n of_all = div (lit n 0) (lit of_all 0)

  -- the score, and whether the false breakouts veto, after each of the three rates
  unfoldable pub breakout_score : F → ℕ × Bool
  breakout_score fb_rate =
      if gt fb_rate (lit 25 2)
      then (50, true)
      else if gt fb_rate (lit 15 2)
      then (30, false)
      else if gt fb_rate (lit 8 2)
      then (42, false)
      else (50, false)

  -- the score and the veto of at least 15 bars
  unfoldable pub trap_of : List (Bar F) → F → F → Bool → ℕ × Bool
  unfolding false_breaks stop_hunts climaxes fails_zone breakout_score penalised
  trap_of bars prz_low prz_high bullish =
      let n = length bars in
      let (score, veto) = breakout_score (rate (false_breaks [] bars) (n - 5)) in
      let hunted = gt (rate (stop_hunts [] bars) (n - 4)) (lit 10 2) in
      let climbed = gt (rate (climaxes bars) (n - 1)) (lit 12 2) in
      (penalised score hunted climbed, veto || any (fails_zone prz_low prz_high bullish) bars)

  unfoldable pub quant_trap_risk : ℕ → List (Bar F) → F → F → Bool → ℕ × Bool
  unfolding tail_rows trap_of
  quant_trap_risk lookback rows prz_low prz_high bullish =
      let bars = tail_rows lookback rows in
      if ltb (length bars) 15 then (50, false) else trap_of bars prz_low prz_high bullish

  module _ (np : Numpy F) (round_int : F → ℤ) where
    abbrev pub both : Bool → Bool → Bool
    both p q = (p && q) || (not p && not q)

    unfoldable pub aligned : List (Bar F) → ℕ
    aligned [] = 0
    aligned (p ∷ []) = 0
    aligned (p ∷ b ∷ rest) =
        (if both (gt b.close p.close) (gt b.volume p.volume) then 1 else 0) + aligned (b ∷ rest)

    -- `v[:-1] * v[1:]`
    abbrev pub lagged : List F → List F
    lagged [] = []
    lagged (x ∷ []) = []
    lagged (x ∷ y ∷ v) = mul x y ∷ lagged (y ∷ v)

    unfoldable pub volume_authenticity : ℕ → List (Bar F) → ℕ
    unfolding tail_rows aligned
    volume_authenticity window rows =
        let bars = tail_rows window rows in
        let n = length bars in
        let vols = map (λ b. b.volume) bars in
        let vol_mean = np.mean vols in
        let spike_rate =
          if gt vol_mean nought
          then rate (count (λ x. gt x (mul vol_mean (lit 25 1))) vols) n
          else nought in
        let v = map (λ x. sub x vol_mean) vols in
        let denom = np.total (map (λ x. mul x x) v) in
        let autocorr = if gt denom nought then div (np.total (lagged v)) denom else nought in
        let align_score = mul (rate (aligned bars) (n - 1)) (lit 100 0) in
        let spike_score = max nought (sub (lit 100 0) (mul spike_rate (lit 400 0))) in
        let autocorr_score = max nought (add (lit 50 0) (mul autocorr (lit 50 0))) in
        if ltb n 10
        then 50
        else percent (
            round_int (
              add (add (mul align_score (lit 40 2)) (mul spike_score (lit 40 2)))
                (mul autocorr_score (lit 20 2))))

    unfoldable pub gaps : List (Bar F) → ℕ
    gaps [] = 0
    gaps (p ∷ []) = 0
    gaps (p ∷ b ∷ rest) =
        (if gt p.close nought && gt (div (abs (sub b.open_price p.close)) p.close) (lit 8 3)
          then 1
          else 0)
        + gaps (b ∷ rest)

    unfoldable pub is_reversal_bar : Bar F → Bool
    is_reversal_bar b =
        gt b.open_price nought
        && gt b.low nought
        && gt (div (sub b.high b.low) b.low) (lit 3 2)
        && lt (div (abs (sub b.close b.open_price)) b.open_price) (lit 5 3)

    abbrev pub returns_of : List (Bar F) → List F
    returns_of [] = []
    returns_of (p ∷ []) = []
    returns_of (p ∷ b ∷ rest) = div (sub b.close p.close) p.close ∷ returns_of (b ∷ rest)

    unfoldable pub regime_of : ℤ → ℤ → ℕ → String
    regime_of moderate high score =
        if leb_ℤ high (pos score)
        then "high_quant"
        else if leb_ℤ moderate (pos score)
        then "moderate_quant"
        else "normal"

    -- with the thresholds `regime_moderate` and `regime_high`
    unfoldable pub quant_regime : ℕ → ℤ → ℤ → List (Bar F) → ℕ × String
    unfolding tail_rows gaps is_reversal_bar regime_of
    quant_regime window moderate high rows =
        let bars = tail_rows window rows in
        let n = length bars in
        let vols = map (λ b. b.volume) bars in
        let vol_mean = np.mean vols in
        let vol_cv = if gt vol_mean nought then div (np.std vols) vol_mean else nought in
        let rets = returns_of bars in
        let ret_mean = np.mean rets in
        let ret_std = np.std rets in
        let tails =
          if gt ret_std nought
          then count (λ x. gt (abs (sub x ret_mean)) (mul (lit 3 0) ret_std)) rets
          else 0 in
        let capped : F → F = λ x. min (lit 100 0) x in
        let gap_score = capped (mul (rate (gaps bars) (n - 1)) (lit 300 0)) in
        let reversal_score = capped (mul (rate (count is_reversal_bar bars) n) (lit 500 0)) in
        let vol_score = capped (mul vol_cv (lit 80 0)) in
        let tail_score = capped (mul (rate tails (length rets)) (lit 1000 0)) in
        let score = percent (
          round_int (
            add
              (add (add (mul gap_score (lit 25 2)) (mul reversal_score (lit 25 2)))
                (mul vol_score (lit 30 2)))
              (mul tail_score (lit 20 2)))) in
        if ltb n 20 then (50, "normal") else (score, regime_of moderate high score)
