-- ===== src/Domain/RsiBacktest/Schedule.antt =====
-- Which signals of a backtest become trades, and where these end.
use pyharmonics_gpt.Prelude.{
  ℕ, zero, suc, ◌+◌, ◌-◌, ◌≤◌, ◌<◌, ◌≡◌, refl, ap, ◌∙◌, subst, Bool, true, false, arith, ◌⊎◌, inl,
  inr, Option, none, some, List, [], ◌∷◌, String, length, ltb, if◌then◌else◌, ℤ, pos, sub_ℕ, ◌+ℤ◌,
  leb_ℤ,
}
use pyharmonics_gpt.Float.{Float, gt, nought}
use pyharmonics_gpt.Domain.RsiTrend.{Row, StrategySignal, drop}
use pyharmonics_gpt.Domain.RsiBacktest.{
  StrategyTrade, Mode, OpenTrade, Exit, later_bar, signal_bar, opened, trade_of, run_later,
  run_bars, last_row, flatten, simulate_one, run_signals,
}
use pyharmonics_gpt.Domain.RsiBacktest.Exits.{last_row_exists}

pos-add : (a b : ℕ) → pos a +ℤ pos b ≡ pos (a + b)
unfolding ◌+ℤ◌
pos-add a b = ground arith

module _ {F : Type 0} ⦃d : Float F⦄ where
  -- the signal lies within the data
  abbrev pub Within : List (Row F) → List (StrategySignal F) → Type 0
  Within frame [] = Unit
  Within frame (s ∷ signals) = (s.index < length frame) × Within frame signals

  -- The trades of the signals, when the bars before `free` are taken: a signal on a taken bar is
  -- skipped, and any other becomes a trade, which takes the bars up to its exit, within the data.
  pub data Schedule (m : Mode) (frame : List (Row F))
      : ℕ → List (StrategySignal F) → List (StrategyTrade F) → Type 0 where
    finished : {free : ℕ} → Schedule m frame free [] []
    skipped :
        {free : ℕ} {s : StrategySignal F} {signals : List (StrategySignal F)}
        {trades : List (StrategyTrade F)}
        → s.index < free
        → Schedule m frame free signals trades
        → Schedule m frame free (s ∷ signals) trades
    traded :
        {free held : ℕ} {s : StrategySignal F} {t : StrategyTrade F}
        {signals : List (StrategySignal F)} {trades : List (StrategyTrade F)}
        → free ≤ s.index
        → simulate_one m frame s ≡ some t
        → t.bars_held ≡ pos held
        → s.index + held < length frame
        → Schedule m frame (suc (s.index + held)) signals trades
        → Schedule m frame free (s ∷ signals) (t ∷ trades)

  -- the exit of a run, if there is one, is at one of its bars
  abbrev EndsBefore : ℕ → OpenTrade F ⊎ (Exit F × ℕ × String) → Type 0
  EndsBefore n (inl t) = Unit
  EndsBefore n (inr (e, k, time)) = k < n

  bar-EndsBefore :
      (m : Mode) (s : StrategySignal F) (k n : ℕ) (row : Row F) (rows : List (Row F))
      (outcome : OpenTrade F ⊎ Exit F)
      → k < n
      → ((t : OpenTrade F) → EndsBefore n (run_later m s t (suc k) rows))
      → EndsBefore n (elim outcome [
        | inl next ↦ run_later m s next (suc k) rows
        | inr e ↦ inr (e, k, row.time)
      ])
  bar-EndsBefore m s k n row rows (inl next) h rest = rest next
  bar-EndsBefore m s k n row rows (inr e) h rest = h

  run_later-EndsBefore :
      (m : Mode) (s : StrategySignal F) (t : OpenTrade F) (k n : ℕ) (rows : List (Row F))
      → k + length rows ≤ n
      → EndsBefore n (run_later m s t k rows)
  unfolding run_later
  run_later-EndsBefore m s t k n [] h = tt
  run_later-EndsBefore m s t k n (row ∷ rows) h =
      bar-EndsBefore m s k n row rows (later_bar m s row t) (omega arith)
        (λ next. run_later-EndsBefore m s next (suc k) n rows (omega arith))

  run_bars-EndsBefore :
      (m : Mode) (s : StrategySignal F) (t : OpenTrade F) (rows : List (Row F))
      → EndsBefore (length rows) (run_bars m s t rows)
  unfolding run_bars
  run_bars-EndsBefore m s t [] = tt
  run_bars-EndsBefore m s t (row ∷ rows) =
      bar-EndsBefore m s 0 _ row rows (signal_bar s row t) (omega arith)
        (λ next. run_later-EndsBefore m s next 1 _ rows (omega arith))

  length-drop :
      (n : ℕ) (rows : List (Row F)) → n ≤ length rows → n + length (drop n rows) ≡ length rows
  length-drop zero rows h = omega arith
  length-drop (suc n) [] h = omega arith
  length-drop (suc n) (row ∷ rows) h = omega (arith, length-drop n rows (omega arith))

  -- a trade, and how long it is held
  abbrev Traded : List (Row F) → StrategySignal F → Option (StrategyTrade F) → Type 0
  Traded frame s result =
      (t : StrategyTrade F) × (held : ℕ) × (result ≡ some t)
      × (t.bars_held ≡ pos held)
      × (s.index + held < length frame)

  flatten-if :
      (frame : List (Row F)) (s : StrategySignal F) (b : Bool) (found : Option (Row F))
      (row : Row F) (f : Row F → StrategyTrade F) (t : StrategyTrade F)
      → s.index < length frame
      → found ≡ some row
      → ((r : Row F) → (f r).bars_held ≡ sub_ℕ (length frame) (suc s.index))
      → t.bars_held ≡ pos 0
      → Traded frame s (if b then elim found [ none ↦ none | some r ↦ some (f r) ] else some t)
  flatten-if frame s true found row f t h e hf ht =
      (f row, length frame - suc s.index, rw e refl, hf row ∙ ground arith, omega arith)
  flatten-if frame s false found row f t h e hf ht = (t, 0, refl, ht, omega arith)

  flatten-Traded :
      (frame : List (Row F)) (s : StrategySignal F) (t : OpenTrade F)
      → s.index < length frame
      → Traded frame s (flatten frame s t)
  unfolding flatten trade_of
  flatten-Traded frame s t h =
      let last = last_row_exists frame (omega arith) in
      flatten-if frame s (gt t.remaining nought) (last_row frame) (last.0) _ _ h (last.1)
        (λ r. refl) refl

  simulated-Traded :
      (frame : List (Row F)) (s : StrategySignal F) (outcome : OpenTrade F ⊎ (Exit F × ℕ × String))
      → s.index < length frame
      → EndsBefore (length (drop s.index frame)) outcome
      → Traded frame s (elim outcome [
        | inl t ↦ flatten frame s t
        | inr (e, k, time) ↦ some (trade_of s e.price time e.reason e.realized_r (pos k) e.partials)
      ])
  unfolding trade_of
  simulated-Traded frame s (inl t) h ends = flatten-Traded frame s t h
  simulated-Traded frame s (inr (e, k, time)) h ends =
      (_, k, refl, refl, omega (arith, length-drop s.index frame (omega arith)))

  simulate_one-Traded :
      (m : Mode) (frame : List (Row F)) (s : StrategySignal F)
      → s.index < length frame
      → Traded frame s (simulate_one m frame s)
  unfolding simulate_one
  simulate_one-Traded m frame s h =
      simulated-Traded frame s (run_bars m s (opened s) (drop s.index frame)) h
        (run_bars-EndsBefore m s (opened s) (drop s.index frame))

  abbrev pub Scheduled :
      Mode → List (Row F) → ℕ → List (StrategySignal F) → Option (List (StrategyTrade F)) → Type 0
  Scheduled m frame free signals result =
      (trades : List (StrategyTrade F)) × (result ≡ some trades)
      × Schedule m frame free signals trades

  schedule-if :
      (m : Mode) (frame : List (Row F)) (free : ℕ) (s : StrategySignal F)
      (signals : List (StrategySignal F)) (b : Bool) (result : Option (StrategyTrade F))
      (skip : Option (List (StrategyTrade F))) (rest : ℤ → Option (List (StrategyTrade F)))
      → ltb s.index free ≡ b
      → simulate_one m frame s ≡ result
      → Traded frame s result
      → Scheduled m frame free signals skip
      → ((n : ℕ) → Scheduled m frame (suc n) signals (rest (pos n)))
      → Scheduled m frame free (s ∷ signals) (elim b [
        | true ↦ skip
        | false ↦ elim result [
          | none ↦ none
          | some t ↦ elim (rest (pos s.index +ℤ t.bars_held)) [
            | none ↦ none
            | some trades ↦ some (t ∷ trades)
          ]
        ]
      ])
  schedule-if m frame free s signals true result skip rest hb hr held (trades, e, schedule) hrest =
      (trades, e, skipped (ground arith) schedule)
  schedule-if m frame free s signals false result skip rest hb hr (t, held, er, eh, bound) hskip
        hrest =
      let next = hrest (s.index + held) in
      let start : pos s.index +ℤ t.bars_held ≡ pos (s.index + held) =
        ap (λ z. pos s.index +ℤ z) eh ∙ pos-add s.index held in
      (
        t ∷ next.0,
        rw er (rw start (rw (next.1) refl)),
        traded {held = held} (ground arith) (hr ∙ er) eh bound (next.2),
      )

  pub run_signals-Scheduled :
      (m : Mode) (frame : List (Row F)) (free : ℕ) (signals : List (StrategySignal F))
      → Within frame signals
      → Scheduled m frame free signals (run_signals m frame (sub_ℕ free 1) signals)
  unfolding run_signals
  run_signals-Scheduled m frame free [] h = ([], refl, finished)
  run_signals-Scheduled m frame free (s ∷ signals) (hs, h) =
      schedule-if m frame free s signals (leb_ℤ (pos s.index) (sub_ℕ free 1))
        (simulate_one m frame s) _ (λ z. run_signals m frame z signals) (ground arith) refl
        (simulate_one-Traded m frame s hs) (run_signals-Scheduled m frame free signals h)
        (λ n.
          subst (λ z. Scheduled m frame (suc n) signals (run_signals m frame z signals))
            (ground arith) (run_signals-Scheduled m frame (suc n) signals h))
