-- ===== src/Domain/RsiTrend/Detection.antt =====
-- What `detect_signals` returns: ordered signals, each of the bar it stands at.
use pyharmonics_gpt.Prelude.{
  ℕ, zero, suc, ◌+◌, ◌≤◌, ◌<◌, ◌≡◌, refl, sym, subst, Bool, true, false, not, ◌&&◌, arith, Option,
  none, some, List, [], ◌∷◌, str_eq, length, filter, leb, if◌then◌else◌,
}
use pyharmonics_gpt.Float.{Float, lt, le, gt, ge, add, sub, mul, lit, nought, max, min}
use pyharmonics_gpt.Domain.RsiTrend.{
  Row, StrategySignal, Options, drop, collect, warmup_bars, rsi_zone_bounds, long_signal,
  short_signal, long_entry, short_entry, signal_at, scan, scan_from, detect_signals,
}

-- The signals' indices increase, from `low` on and below `high`.
abbrev pub Ascends : {F : Type 0} → ℕ → ℕ → List (StrategySignal F) → Type 0
Ascends low high [] = Unit
Ascends low high (s ∷ signals) =
    (low ≤ s.index) × (s.index < high) × Ascends (suc s.index) high signals

-- every signal passes the test
abbrev pub All {ℓ} : {A : Type ℓ} → (A → Type 0) → List A → Type 0
All P [] = Unit
All P (x ∷ xs) = P x × All P xs

module _ {F : Type 0} ⦃d : Float F⦄ where
  -- the entry is the close of the row, on the side of the trend that its direction names, and the
  -- distance to the stop is not `<= 0`
  abbrev pub is_entry : Row F → StrategySignal F → Bool
  is_entry row s =
      if str_eq s.direction "long"
      then gt row.close row.ema200 && not (le (sub s.entry_price s.stop_loss) nought)
      else lt row.close row.ema200 && not (le (sub s.stop_loss s.entry_price) nought)

  -- the bar is an entry at its close for the signal
  abbrev pub Enters : Row F → StrategySignal F → Type 0
  Enters row s = (s.entry_price ≡ row.close) × (is_entry row s ≡ true)

-- `data.iloc[k]`, and what is asked of it
abbrev pub AtRow {ℓ} : {A : Type ℓ} → (A → Type 0) → ℕ → List A → Type 0
AtRow P k [] = ⊥
AtRow P zero (x ∷ xs) = P x
AtRow P (suc k) (x ∷ xs) = AtRow P k xs

AtRow-drop :
    {A : Type 0} (P : A → Type 0) (n k m : ℕ) (xs : List A)
    → m ≡ n + k
    → AtRow P k (drop n xs)
    → AtRow P m xs
AtRow-drop P zero k m xs e h = subst (λ j. AtRow P j xs) (omega (arith, e)) h
AtRow-drop P (suc n) k m [] e h = h
AtRow-drop P (suc n) k zero (x ∷ xs) e h = absurd (omega (arith, e))
AtRow-drop P (suc n) k (suc m) (x ∷ xs) e h = AtRow-drop P n k m xs (omega (arith, e)) h

-- the value, if there is one, has the property
data Holds {A : Type 0} (P : A → Type 0) : Option A → Type 0 where
  absent : Holds P none
  present : {x : A} → P x → Holds P (some x)

Holds-if :
    {A : Type 0} (P : A → Type 0) (b : Bool) (x y : Option A)
    → (b ≡ true → Holds P x)
    → (b ≡ false → Holds P y)
    → Holds P (if b then x else y)
Holds-if P true x y hx hy = hx refl
Holds-if P false x y hx hy = hy refl

Holds-guarded :
    {A : Type 0} (P : A → Type 0) (a b c : Bool) (x : A)
    → (c ≡ false → P x)
    → Holds P (if a then none else if b then none else if c then none else some x)
Holds-guarded P true b c x h = absent
Holds-guarded P false true c x h = absent
Holds-guarded P false false true x h = absent
Holds-guarded P false false false x h = present (h refl)

module _ {F : Type 0} ⦃d : Float F⦄ where
  abbrev Found : Row F → ℕ → StrategySignal F → Type 0
  Found row i s = (s.index ≡ i) × Enters row s

  long_signal-Found :
      (o : Options F) (prev : F) (row : Row F) (i : ℕ)
      → gt row.close row.ema200 ≡ true
      → Holds (Found row i) (long_signal o prev row i)
  unfolding long_signal long_entry
  long_signal-Found o prev row i h =
      Holds-guarded (Found row i) (o.use_ema50 && not (gt row.close row.ema50))
        (o.require_candle_color && not (gt row.close row.open_price))
        (le (sub row.close (sub row.low (mul o.atr_mult row.atr))) nought) (long_entry o prev row i)
        (λ e. (refl, (refl, ground arith)))

  short_signal-Found :
      (o : Options F) (prev : F) (row : Row F) (i : ℕ)
      → lt row.close row.ema200 ≡ true
      → Holds (Found row i) (short_signal o prev row i)
  unfolding short_signal short_entry
  short_signal-Found o prev row i h =
      Holds-guarded (Found row i) (o.use_ema50 && not (lt row.close row.ema50))
        (o.require_candle_color && not (lt row.close row.open_price))
        (le (sub (add row.high (mul o.atr_mult row.atr)) row.close) nought)
        (short_entry o prev row i) (λ e. (refl, (refl, ground arith)))

  signal_at-Found :
      (o : Options F) (prev : F) (row : Row F) (i : ℕ)
      → Holds (Found row i) (signal_at o prev row i)
  unfolding signal_at
  signal_at-Found o prev row i =
      let zone = rsi_zone_bounds o.rsi_zone in
      let up = le prev (zone.0) && lt (zone.0) row.rsi in
      let down = ge prev (zone.1) && gt (zone.1) row.rsi in
      Holds-if (Found row i) _ _ _ (λ e. absent)
        (λ e.
          Holds-if (Found row i) (up && gt row.close row.ema200) _ _
            (λ e. long_signal-Found o prev row i (ground arith))
            (λ e.
              Holds-if (Found row i) (down && lt row.close row.ema200) _ _
                (λ e. short_signal-Found o prev row i (ground arith)) (λ e. absent)))

  -- each signal stands in its row of those that start at `first`
  abbrev Stands : ℕ → List (Row F) → List (StrategySignal F) → Type 0
  Stands first rows [] = Unit
  Stands first rows (s ∷ signals) =
      ((k : ℕ) × (s.index ≡ first + k) × AtRow (λ row. Enters row s) k rows)
      × Stands first rows signals

  Stands-cons :
      (i : ℕ) (row : Row F) (rows : List (Row F)) (signals : List (StrategySignal F))
      → Stands (suc i) rows signals
      → Stands i (row ∷ rows) signals
  Stands-cons i row rows [] h = tt
  Stands-cons i row rows (s ∷ signals) ((k, e, h), hs) =
      ((suc k, omega (arith, e), h), Stands-cons i row rows signals hs)

  Ascends-widen :
      (low low2 high : ℕ) (signals : List (StrategySignal F))
      → low ≤ low2
      → Ascends low2 high signals
      → Ascends low high signals
  Ascends-widen low low2 high [] h k = tt
  Ascends-widen low low2 high (s ∷ signals) h (a, b, c) = (omega arith, b, c)

  collect-Good :
      (i high : ℕ) (row : Row F) (rows : List (Row F)) (found : Option (StrategySignal F))
      (signals : List (StrategySignal F))
      → Holds (Found row i) found
      → i < high
      → Ascends (suc i) high signals × Stands (suc i) rows signals
      → Ascends i high (collect found signals) × Stands i (row ∷ rows) (collect found signals)
  collect-Good i high row rows none signals absent hi (a, st) =
      (Ascends-widen i (suc i) high signals (omega arith) a, Stands-cons i row rows signals st)
  collect-Good i high row rows (some s) signals (present (e, entry)) hi (a, st) = (
    (
      omega (arith, e),
      omega (arith, e),
      Ascends-widen (suc s.index) (suc i) high signals (omega (arith, e)) a,
    ),
    ((zero, omega (arith, e), entry), Stands-cons i row rows signals st),
  )

  scan-Good :
      (o : Options F) (prev : F) (i high : ℕ) (rows : List (Row F))
      → i + length rows ≤ high
      → Ascends i high (scan o prev i rows) × Stands i rows (scan o prev i rows)
  unfolding scan
  scan-Good o prev i high [] h = (tt, tt)
  scan-Good o prev i high (row ∷ rows) h =
      collect-Good i high row rows (signal_at o prev row i) _ (signal_at-Found o prev row i)
        (omega arith) (scan-Good o row.rsi (suc i) high rows (omega arith))

  -- a row of those after the warm-up is a row of the frame
  Stands-All :
      (rows : List (Row F)) (row : Row F) (rest : List (Row F)) (signals : List (StrategySignal F))
      → drop 199 rows ≡ row ∷ rest
      → Stands warmup_bars rest signals
      → All (λ s. AtRow (λ row. Enters row s) s.index rows) signals
  Stands-All rows row rest [] e h = tt
  Stands-All rows row rest (s ∷ signals) e ((k, ek, hk), hs) = (
    AtRow-drop (λ row. Enters row s) 199 (suc k) s.index rows (omega (arith, ek))
        (subst (AtRow (λ row. Enters row s) (suc k)) (sym e) hk),
    Stands-All rows row rest signals e hs,
  )

  -- the signal passes the filter, and its row is its entry
  abbrev pub Kept : List (Row F) → (StrategySignal F → Bool) → StrategySignal F → Type 0
  Kept rows p s = (p s ≡ true) × AtRow (λ row. Enters row s) s.index rows

  keep-Good :
      (low high : ℕ) (rows : List (Row F)) (p : StrategySignal F → Bool) (s : StrategySignal F)
      (signals : List (StrategySignal F)) (b : Bool)
      → p s ≡ b
      → low ≤ s.index
      → s.index < high
      → AtRow (λ row. Enters row s) s.index rows
      → Ascends (suc s.index) high signals × All (Kept rows p) signals
      → Ascends low high (if b then s ∷ signals else signals)
        × All (Kept rows p) (if b then s ∷ signals else signals)
  keep-Good low high rows p s signals true e hl hh entry (a, k) = ((hl, hh, a), ((e, entry), k))
  keep-Good low high rows p s signals false e hl hh entry (a, k) =
      (Ascends-widen low (suc s.index) high signals (omega arith) a, k)

  filter-Good :
      (low high : ℕ) (rows : List (Row F)) (p : StrategySignal F → Bool)
      (signals : List (StrategySignal F))
      → Ascends low high signals
      → All (λ s. AtRow (λ row. Enters row s) s.index rows) signals
      → Ascends low high (filter p signals) × All (Kept rows p) (filter p signals)
  filter-Good low high rows p [] a h = (tt, tt)
  filter-Good low high rows p (s ∷ signals) (hl, hh, a) (entry, h) =
      keep-Good low high rows p s (filter p signals) (p s) refl hl hh entry
        (filter-Good (suc s.index) high rows p signals a h)

  length-drop :
      (n : ℕ) (rows : List (Row F)) → n ≤ length rows → n + length (drop n rows) ≡ length rows
  length-drop zero rows h = omega arith
  length-drop (suc n) [] h = omega arith
  length-drop (suc n) (row ∷ rows) h = omega (arith, length-drop n rows (omega arith))

  -- the score that a signal needs, within [0, 100]
  abbrev pub passes : Options F → StrategySignal F → Bool
  passes o s = ge s.quality_score (max nought (min o.min_quality_score (lit 100 0)))

  scan_from-Good :
      (o : Options F) (rows dropped : List (Row F))
      → drop 199 rows ≡ dropped
      → 200 ≤ length rows
      → Ascends warmup_bars (length rows) (scan_from o dropped)
        × All (λ s. AtRow (λ row. Enters row s) s.index rows) (scan_from o dropped)
  scan_from-Good o rows [] e h = (tt, tt)
  scan_from-Good o rows (row ∷ rest) e h =
      let size : 199 + length (row ∷ rest) ≡ length rows =
        subst (λ xs. 199 + length xs ≡ length rows) e (length-drop 199 rows (omega arith)) in
      let good = scan-Good o row.rsi warmup_bars (length rows) rest (omega (arith, size)) in
      (good.0, Stands-All rows row rest _ e (good.1))

  detect-if :
      (o : Options F) (rows : List (Row F)) (b : Bool)
      → leb (length rows) warmup_bars ≡ b
      → let signals = (if b then [] else filter (passes o) (scan_from o (drop 199 rows))) in
        Ascends warmup_bars (length rows) signals × All (Kept rows (passes o)) signals
  detect-if o rows true e = (tt, tt)
  detect-if o rows false e =
      let good = scan_from-Good o rows (drop 199 rows) refl (ground arith) in
      filter-Good warmup_bars (length rows) rows (passes o) (scan_from o (drop 199 rows)) (good.0)
        (good.1)

  -- The signals come in strictly increasing order of their bars, none within the first 200 and none
  -- beyond the data. Each has the quality asked for, its entry price is the close of its bar, that
  -- close is above EMA200 for a long and below it for a short, and the risk down, or up, to the stop
  -- is not zero or less.
  pub detect_signals-Kept :
      (o : Options F) (rows : List (Row F))
      → Ascends warmup_bars (length rows) (detect_signals o rows)
        × All (Kept rows (passes o)) (detect_signals o rows)
  unfolding detect_signals
  detect_signals-Kept o rows = detect-if o rows (leb (length rows) warmup_bars) refl
