-- ===== src/Services/DisciplineFilters.antt =====
-- The discipline filters of forming candidates, app/services/discipline_filters.py. A frame is its
-- bars; the mean of a volume window, which pandas takes, is an argument. Positions of bars are never
-- negative. `none` is a contract violation, or an exception of `compute_targets`.
pub mod Passing
mod Tests
use pyharmonics_gpt.Prelude.{
  ℕ, zero, suc, ◌+◌, ◌-◌, Bool, true, false, not, ◌&&◌, ◌||◌, Option, none, some, List, [], ◌∷◌,
  String, ltb, leb, length, any, all, map, if◌then◌else◌,
}
use pyharmonics_gpt.Float.{Float, lt, le, gt, ge, add, sub, mul, div, lit, nought}
use pyharmonics_gpt.Domain.Signals.{Candidate, Tuning, prz_low, prz_high, compute_targets}
use pyharmonics_gpt.Domain.RsiTrend.{drop, isna}

pub record Bar (F : Type 0) : Type 0 where
  pub high : F
  pub low : F
  pub volume : F

pub record CandidateMetrics (F : Type 0) : Type 0 where
  pub bars_since_c : ℕ
  pub stale : Bool
  pub breached_stop : Bool
  pub past_tp2 : Bool
  pub in_prz : Bool
  pub dist_pct : F
  pub liquidity_sweep : Bool

pub record DisciplineResult (F : Type 0) : Type 0 where
  pub passed : Bool
  pub metrics : CandidateMetrics F

-- `max(0, total_bars - 1 - c_idx)`
unfoldable pub bars_since : ℕ → ℕ → ℕ
bars_since c_idx total_bars = total_bars - 1 - c_idx

-- the last but one of the positions
abbrev pub last_but_one : List ℕ → Option ℕ
last_but_one [] = none
last_but_one (i ∷ []) = none
last_but_one (i ∷ j ∷ []) = some i
last_but_one (i ∷ j ∷ k ∷ rest) = last_but_one (j ∷ k ∷ rest)

abbrev pub last_of : List ℕ → ℕ
last_of [] = 0
last_of (i ∷ []) = i
last_of (i ∷ j ∷ rest) = last_of (j ∷ rest)

-- the position given, else that of the indices, else that of the times, else the first
unfoldable pub c_position : Option ℕ → List ℕ → List ℕ → ℕ
c_position (some i) indices times = i
c_position none indices times = elim (last_but_one indices) [
  | some i ↦ i
  | none ↦ elim (last_but_one times) [ some i ↦ i | none ↦ 0 ]
]

abbrev pub or_default : Option ℕ → ℕ → ℕ
or_default none n = n
or_default (some m) n = m

abbrev pub take {ℓ} : {A : Type ℓ} → ℕ → List A → List A
take zero xs = []
take (suc n) [] = []
take (suc n) (x ∷ xs) = x ∷ take n xs

module _ {F : Type 0} ⦃d : Float F⦄ where
  -- `_prz_was_touched`; both directions make the same comparison
  unfoldable pub prz_was_touched : List (Bar F) → F → F → Bool → Bool
  prz_was_touched after low high bullish =
      if bullish
      then any (λ bar. ge bar.high low && le bar.low high) after
      else any (λ bar. le bar.low high && ge bar.high low) after

  abbrev pub prz_mid : Candidate F → F
  prz_mid c = div (add (prz_low c) (prz_high c)) (lit 2 0)

  unfoldable pub past_tp2 : (F → F) → Tuning F → F → Candidate F → Bool → Option Bool
  past_tp2 round8 t current_price c bullish =
      if le (prz_mid c) nought then some false else elim (compute_targets round8 t c (prz_mid c)) [
        | none ↦ none
        | some targets ↦
            some (if bullish then gt current_price (targets.1) else lt current_price (targets.1))
      ]

  -- `df["volume"].iloc[d_idx]`
  abbrev pub volume_at : ℕ → List (Bar F) → F
  volume_at i [] = nought
  volume_at zero (bar ∷ bars) = bar.volume
  volume_at (suc i) (bar ∷ bars) = volume_at i bars

  unfoldable pub liquidity_sweep : (List F → F) → List (Bar F) → Candidate F → Bool
  liquidity_sweep mean bars c =
      let d_idx = last_of c.indices in
      let window = map (λ bar. bar.volume) (take (d_idx - (d_idx - 20)) (drop (d_idx - 20) bars)) in
      if all (λ bar. isna bar.volume) bars
      then false
      else if ltb (length c.indices) 2
      then false
      else if leb d_idx 0 || leb (length bars) d_idx
      then false
      else if leb (length window) 0 || le (mean window) nought
      then false
      else gt (volume_at d_idx bars) (mul (mean window) (lit 3 0))

  unfoldable pub dist_pct : F → Candidate F → Bool → F
  unfolding prz_low prz_high
  dist_pct price c bullish =
      let low = prz_low c in
      let high = prz_high c in
      let above = mul (sub (div price high) (lit 1 0)) (lit 100 0) in
      let below = mul (sub (div low price) (lit 1 0)) (lit 100 0) in
      if le price nought || le low nought || le high nought
      then nought
      else if le low price && le price high
      then nought
      else if bullish
      then (if gt price high then above else below)
      else (if lt price low then below else above)

  -- the slice after C
  unfoldable pub bars_after : ℕ → List (Bar F) → List (Bar F)
  bars_after position bars =
      if ltb (suc position) (length bars) then drop (suc position) bars else []

  -- `_check_inputs`
  unfoldable pub inputs_ok : List (Bar F) → Candidate F → F → Bool
  unfolding prz_low prz_high
  inputs_ok bars c price =
      ltb 0 (length bars) && gt (prz_low c) nought && gt (prz_high c) nought && gt price nought

  unfoldable pub evaluate :
      (F → F)
      → (List F → F)
      → Tuning F
      → List (Bar F)
      → Candidate F
      → F
      → Option ℕ
      → Option ℕ
      → Option (DisciplineResult F)
  unfolding inputs_ok c_position bars_since prz_was_touched past_tp2 liquidity_sweep dist_pct
      bars_after prz_low prz_high
  evaluate round8 mean t bars c price max_ttl c_idx =
      let ttl = or_default max_ttl t.default_ttl_bars in
      let position = c_position c_idx c.indices c.times in
      let breached =
        prz_was_touched (bars_after position bars) (prz_low c) (prz_high c) c.bullish in
      if not (inputs_ok bars c price) then none else elim (past_tp2 round8 t price c c.bullish) [
        | none ↦ none
        | some past ↦ some (record {
          passed = not breached && not past;
          metrics = record {
            bars_since_c = bars_since position (length bars);
            stale = ltb ttl (bars_since position (length bars));
            breached_stop = breached;
            past_tp2 = past;
            in_prz = le (prz_low c) price && le price (prz_high c);
            dist_pct = dist_pct price c c.bullish;
            liquidity_sweep = liquidity_sweep mean bars c;
          };
        })
      ]
