-- ===== src/Services/PositionManager/Bars.antt =====
-- Every bar takes a consistent position to a consistent position, without an error.
use pyharmonics_gpt.Prelude.{
  ◌+◌, ◌≡◌, refl, Bool, true, false, Option, List, [], ◌∷◌, if◌then◌else◌, arith,
}
use pyharmonics_gpt.Float.{Float, mul, gt, lit}
use pyharmonics_gpt.Services.PositionManager.{
  PositionState, Tp, tp1, tp2, tp3, Action, Flow, Outcome, CloseReason, is_hit, stop_hit, close_out,
  is_sane, ensure_reason, tp_round, tp_loop, ratchet, hold_if_idle, run_targets, advance,
  process_bar, finish, stop, time_stop, close_all, time_stop_reached,
}
use pyharmonics_gpt.Services.PositionManager.Closing.{
  SizesFit, IsConsistent, IsRunning, RoundOk, tp_round-RoundOk,
}

module _ {F : Type 0} ⦃d : Float F⦄ where
  abbrev LoopOk : Flow F → Type 0
  LoopOk (Flow.continued s actions) = ⊥
  LoopOk (Flow.broke s actions) = IsRunning s
  LoopOk (Flow.returned s actions) = IsConsistent s × (s.closed ≡ true)
  LoopOk Flow.raised = ⊥

  -- a result, with a consistent position
  pub data Returns : Outcome F → Type 0 where
    returns :
        (s : PositionState F) (actions : List (Action F))
        → IsConsistent s
        → Returns (Outcome.ok s actions)

  retrailed-IsConsistent :
      (s : PositionState F) (c : F) (high low : Option F)
      → IsConsistent s
      → IsConsistent (record s { current_stop = c; chandelier_high = high; chandelier_low = low })
  retrailed-IsConsistent s c high low h = record {
    prices = h.prices;
    in_order = h.in_order;
    third_closes = h.third_closes;
    open_size = h.open_size;
    closed_size = h.closed_size;
    reason = h.reason;
  }

  ratchet_shape :
      (bar_high bar_low : F) (s : PositionState F) (actions : List (Action F))
      → let r = (ratchet bar_high bar_low s actions).0 in
        r ≡ record s {
          current_stop = r.current_stop;
          chandelier_high = r.chandelier_high;
          chandelier_low = r.chandelier_low;
        }
  unfolding ratchet
  ratchet_shape bar_high bar_low s actions = ground arith

  module _ (fits : SizesFit F) (bar_high bar_low : F) where
    -- the loop goes on only from a round that hit its target
    rounds_from :
        (tp : Tp) (rest : List Tp) (s : PositionState F) (actions : List (Action F))
        → RoundOk tp (tp_round tp bar_high bar_low s actions)
        → ((s' : PositionState F) (actions' : List (Action F))
            → IsRunning s'
            → is_hit tp s' ≡ true
            → LoopOk (tp_loop rest bar_high bar_low s' actions'))
        → LoopOk (tp_loop (tp ∷ rest) bar_high bar_low s actions)
    unfolding tp_loop
    rounds_from tp rest s actions r next = go (tp_round tp bar_high bar_low s actions) r
      where
        go :
            (flow : Flow F)
            → RoundOk tp flow
            → LoopOk (elim flow [
              | Flow.continued s' actions' ↦ tp_loop rest bar_high bar_low s' actions'
              | Flow.broke s' actions' ↦ Flow.broke s' actions'
              | Flow.returned s' actions' ↦ Flow.returned s' actions'
              | Flow.raised ↦ Flow.raised
            ])
        go (Flow.continued s' actions') (running, hit) = next s' actions' running hit
        go (Flow.broke s' actions') running = running
        go (Flow.returned s' actions') closed = closed
        go Flow.raised h = h

    tp_loop-LoopOk :
        (s : PositionState F) (actions : List (Action F))
        → IsRunning s
        → LoopOk (tp_loop (tp1 ∷ tp2 ∷ tp3 ∷ []) bar_high bar_low s actions)
    unfolding is_hit
    tp_loop-LoopOk s actions h =
        rounds_from tp1 (tp2 ∷ tp3 ∷ []) s actions
          (tp_round-RoundOk fits bar_high bar_low s actions h tp1 (λ e. cc) (λ e. cc))
          λ s1 actions1 h1 hit1.
            rounds_from tp2 (tp3 ∷ []) s1 actions1
              (tp_round-RoundOk fits bar_high bar_low s1 actions1 h1 tp2 (λ e. hit1) (λ e. cc))
              λ s2 actions2 h2 hit2.
                rounds_from tp3 [] s2 actions2
                  (tp_round-RoundOk fits bar_high bar_low s2 actions2 h2 tp3 (λ e. cc)
                    (λ e. (h2.0.in_order hit2, hit2)))
                  λ s3 actions3 h3 hit3. unfold tp_loop in h3

    ratchet-IsConsistent :
        (s : PositionState F) (actions : List (Action F))
        → IsConsistent s
        → IsConsistent (ratchet bar_high bar_low s actions).0
    ratchet-IsConsistent s actions h =
        rw (ratchet_shape bar_high bar_low s actions) (retrailed-IsConsistent s _ _ _ h)

    hold_if_idle-state :
        (s : PositionState F) (actions : List (Action F)) → (hold_if_idle (s, actions)).0 ≡ s
    unfolding hold_if_idle
    hold_if_idle-state s [] = refl
    hold_if_idle-state s (a ∷ actions) = refl

    run_targets-Returns :
        (s : PositionState F) → IsRunning s → Returns (run_targets bar_high bar_low s)
    unfolding run_targets
    run_targets-Returns s h =
        go (tp_loop (tp1 ∷ tp2 ∷ tp3 ∷ []) bar_high bar_low s []) (tp_loop-LoopOk s [] h)
      where
        go :
            (flow : Flow F)
            → LoopOk flow
            → Returns (elim flow [
              | Flow.returned s' actions ↦ Outcome.ok s' actions
              | Flow.raised ↦ Outcome.value_error
              | Flow.broke s' actions ↦ finish (hold_if_idle (ratchet bar_high bar_low s' actions))
              | Flow.continued s' actions ↦
                  finish (hold_if_idle (ratchet bar_high bar_low s' actions))
            ])
        go (Flow.continued s' actions') h = absurd h
        go (Flow.broke s' actions') running =
            let r = ratchet bar_high bar_low s' actions' in
            returns (hold_if_idle r).0 (hold_if_idle r).1
              (rw (hold_if_idle-state r.0 r.1) (ratchet-IsConsistent s' actions' running.0))
        go (Flow.returned s' actions') closed = returns s' actions' closed.0
        go Flow.raised h = absurd h

  bar_counted-IsConsistent :
      (s : PositionState F)
      → IsConsistent s
      → IsConsistent (record s { bars_held = s.bars_held + 1 })
  bar_counted-IsConsistent s h = record {
    prices = h.prices;
    in_order = h.in_order;
    third_closes = h.third_closes;
    open_size = h.open_size;
    closed_size = h.closed_size;
    reason = h.reason;
  }

  close_out-IsConsistent :
      (r : CloseReason) (s : PositionState F) → IsConsistent s → IsConsistent (close_out r s)
  close_out-IsConsistent r s h = record {
    prices = h.prices;
    in_order = h.in_order;
    third_closes = λ t. ((h.third_closes t).0, refl);
    open_size = λ c. cc;
    closed_size = λ c. refl;
    reason = λ c. (r, refl);
  }

  ensure_reason-Returns : {o : Outcome F} → Returns o → ensure_reason o ≡ o
  unfolding ensure_reason
  ensure_reason-Returns (returns s actions h) = ground (arith, h.reason)

  Returns-if :
      (b : Bool) (x y : Outcome F)
      → (b ≡ true → Returns x)
      → (b ≡ false → Returns y)
      → Returns (if b then x else y)
  Returns-if true x y h k = h refl
  Returns-if false x y h k = k refl

  module _ (fits : SizesFit F) (bar_high bar_low : F) where
    IsConsistent-is_sane : (s : PositionState F) → IsConsistent s → is_sane s ≡ true
    unfolding is_sane
    IsConsistent-is_sane s h = ground (
      arith, h.prices, h.open_size, h.closed_size, fits.none_left, fits.full, fits.half, fits.fifth,
    )

    advance-Returns : (s : PositionState F) → IsConsistent s → Returns (advance bar_high bar_low s)
    unfolding advance
    advance-Returns s h =
        let s1 : PositionState F = record s { bars_held = s.bars_held + 1 } in
        let h1 = bar_counted-IsConsistent s h in
        Returns-if s.closed _ _ (λ c. returns s _ h)
          λ c.
            Returns-if (stop_hit bar_high bar_low s.current_stop s.bullish) _ _
              (λ e. returns _ _ (close_out-IsConsistent stop s1 h1))
              λ e.
                Returns-if
                  (gt (lit (s.bars_held + 1) 0) (mul s.time_stop_cd_mult (lit s.cd_leg_bars 0)))
                  (Outcome.ok (close_out time_stop s1) (close_all time_stop_reached ∷ [])) _
                  (λ t. returns _ _ (close_out-IsConsistent time_stop s1 h1))
                  (λ t. run_targets-Returns fits bar_high bar_low s1 (h1, c))

    -- On a consistent position `process_bar` breaks no contract and raises no ValueError: it returns
    -- a consistent position.
    pub process_bar-Returns :
        (s : PositionState F) → IsConsistent s → Returns (process_bar bar_high bar_low s)
    unfolding process_bar
    process_bar-Returns s h =
        rw (IsConsistent-is_sane s h, ensure_reason-Returns (advance-Returns s h))
          (advance-Returns s h)
