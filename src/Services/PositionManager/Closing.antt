-- ===== src/Services/PositionManager/Closing.antt =====
-- The size of a position follows its flags, and no sequence of bars makes `process_bar` raise.
use pyharmonics_gpt.Prelude.{
  ◌≡◌, refl, Bool, true, false, ◌&&◌, some, List, arith, inl, inr, Bool-cases,
}
use pyharmonics_gpt.Float.{Float, sub, gt, le, lit, nought}
use pyharmonics_gpt.Services.PositionManager.{
  PositionState, Tp, tp1, tp2, tp3, Action, Flow, CloseReason, is_hit, tp_price, mark_hit,
  tp_touched, replace_size, advance_stop, settle, take_profit, tp_round, differ, target_three,
}

module _ {F : Type 0} ⦃d : Float F⦄ where
  -- what is left after the targets that were hit: 1.0, 0.5, 0.5 - 0.3
  abbrev pub size_after : Bool → Bool → F
  size_after false _ = lit 1 0
  size_after true false = sub (lit 1 0) (lit 5 1)
  size_after true true = sub (sub (lit 1 0) (lit 5 1)) (lit 3 1)

  -- the test of `__post_init__` on the size
  abbrev pub is_size : F → Bool
  is_size x = le nought x && le x (lit 1 0)

-- The float literals of the partial closes stay within [0, 1] down to the last.
pub record SizesFit (F : Type 0) ⦃d : Float F⦄ : Type 0 where
  pub none_left : is_size {F = F} nought ≡ true
  pub full : is_size {F = F} (lit 1 0) ≡ true
  pub half : is_size {F = F} (size_after true false) ≡ true
  pub fifth : is_size {F = F} (size_after true true) ≡ true
  pub rest : is_size {F = F} (sub (size_after true true) (lit 2 1)) ≡ true

module _ {F : Type 0} ⦃d : Float F⦄ where
  abbrev pub are_positive : PositionState F → Bool
  are_positive s =
      gt s.entry_price nought
      && (gt s.initial_stop nought
          && (gt s.tp1 nought && (gt s.tp2 nought && (gt s.tp3 nought && gt s.atr nought))))

  -- Prices are positive. Targets are hit in their order, an open position holds what they left, a closed one nothing.
  pub record IsConsistent (s : PositionState F) : Type 0 where
    pub prices : are_positive s ≡ true
    pub in_order : s.tp2_hit ≡ true → s.tp1_hit ≡ true
    pub third_closes : s.tp3_hit ≡ true → (s.tp2_hit ≡ true) × (s.closed ≡ true)
    pub open_size : s.closed ≡ false → s.size_remaining ≡ size_after s.tp1_hit s.tp2_hit
    pub closed_size : s.closed ≡ true → s.size_remaining ≡ nought
    pub reason : s.closed ≡ true → (r : CloseReason) × (s.close_reason ≡ some r)

  abbrev pub IsRunning : PositionState F → Type 0
  IsRunning s = IsConsistent s × (s.closed ≡ false)

  -- What a round may hand on; `raised` cannot be.
  abbrev pub RoundOk : Tp → Flow F → Type 0
  RoundOk tp (Flow.continued s actions) = IsRunning s × (is_hit tp s ≡ true)
  RoundOk tp (Flow.broke s actions) = IsRunning s
  RoundOk tp (Flow.returned s actions) = IsConsistent s × (s.closed ≡ true)
  RoundOk tp Flow.raised = ⊥

  is_hit_moved :
      (tp : Tp) (new_stop : F) (s : PositionState F)
      → is_hit tp s ≡ true
      → is_hit tp (record s { current_stop = new_stop }) ≡ true
  unfolding is_hit
  is_hit_moved tp1 new_stop s e = e
  is_hit_moved tp2 new_stop s e = e
  is_hit_moved tp3 new_stop s e = e

  -- a new stop is no part of the bookkeeping
  advance_stop-RoundOk :
      (tp : Tp) (new_stop : F) (s : PositionState F) (actions : List (Action F))
      → IsRunning s
      → is_hit tp s ≡ true
      → RoundOk tp (advance_stop tp new_stop s actions)
  unfolding advance_stop is_hit
  advance_stop-RoundOk tp new_stop s actions h hit =
      elim (Bool-cases (differ new_stop s.current_stop)) [
        | inl e ↦ rw e (moved, is_hit_moved tp new_stop s hit)
        | inr e ↦ rw e (h, hit)
      ]
    where
      moved : IsRunning (record s { current_stop = new_stop })
      moved = (
        record {
          prices = h.0.prices;
          in_order = h.0.in_order;
          third_closes = h.0.third_closes;
          open_size = h.0.open_size;
          closed_size = h.0.closed_size;
          reason = h.0.reason;
        },
        h.1,
      )

  module _ (fits : SizesFit F) (bar_high bar_low : F) (s : PositionState F)
      (actions : List (Action F)) (h : IsRunning s) where
    take1 : s.tp1_hit ≡ false → RoundOk tp1 (take_profit tp1 bar_high bar_low s actions)
    unfolding take_profit mark_hit replace_size settle
    take1 open1 =
        let e : is_size (sub s.size_remaining (lit 5 1)) ≡ true =
          ground (arith, h.0.open_size h.1, fits.half, open1) in
        rw (e, take_profit, replace_size)
          (advance_stop-RoundOk tp1 _ _ _
            (
              record {
                prices = h.0.prices;
                in_order = λ _. refl;
                third_closes = λ t. ground (arith, h.0.third_closes t, h.1);
                open_size = λ _. ground (arith, h.0.open_size h.1, open1, h.0.in_order);
                closed_size = λ c. ground (arith, h.1, c);
                reason = h.0.reason;
              },
              h.1,
            )
            (unfold is_hit in refl))

    take2 :
        s.tp1_hit ≡ true
        → s.tp2_hit ≡ false
        → RoundOk tp2 (take_profit tp2 bar_high bar_low s actions)
    unfolding take_profit mark_hit replace_size settle
    take2 done1 open2 =
        let e : is_size (sub s.size_remaining (lit 3 1)) ≡ true =
          ground (arith, h.0.open_size h.1, fits.fifth, done1, open2) in
        rw (e, take_profit, replace_size)
          (advance_stop-RoundOk tp2 _ _ _
            (
              record {
                prices = h.0.prices;
                in_order = λ _. done1;
                third_closes = λ t. ground (arith, h.0.third_closes t, h.1);
                open_size = λ _. ground (arith, h.0.open_size h.1, done1, open2);
                closed_size = λ c. ground (arith, h.1, c);
                reason = h.0.reason;
              },
              h.1,
            )
            (unfold is_hit in refl))

    take3 :
        s.tp1_hit ≡ true
        → s.tp2_hit ≡ true
        → RoundOk tp3 (take_profit tp3 bar_high bar_low s actions)
    unfolding take_profit mark_hit replace_size settle
    take3 done1 done2 =
        let e : is_size (sub s.size_remaining (lit 2 1)) ≡ true =
          ground (arith, h.0.open_size h.1, fits.rest, done1, done2) in
        rw (e, take_profit, replace_size)
          (
            record {
              prices = h.0.prices;
              in_order = λ _. done1;
              third_closes = λ _. (done2, refl);
              open_size = λ c. ground (arith, c);
              closed_size = λ _. refl;
              reason = λ _. (target_three, refl);
            },
            refl,
          )

    -- A round at a target whose predecessors were hit.
    pub tp_round-RoundOk :
        (tp : Tp)
        → (tp ≡ tp2 → s.tp1_hit ≡ true)
        → (tp ≡ tp3 → (s.tp1_hit ≡ true) × (s.tp2_hit ≡ true))
        → RoundOk tp (tp_round tp bar_high bar_low s actions)
    unfolding tp_round
    tp_round-RoundOk tp before2 before3 = elim (Bool-cases (is_hit tp s)) [
      | inl e ↦ rw (e, tp_round) (h, e)
      | inr e ↦ elim (Bool-cases (tp_touched bar_high bar_low (tp_price tp s) s.bullish)) [
        | inl t ↦ rw (e, t, tp_round) (take tp e before2 before3)
        | inr t ↦ rw (e, t, tp_round) h
      ]
    ]
      where
        take :
            (t : Tp)
            → is_hit t s ≡ false
            → (t ≡ tp2 → s.tp1_hit ≡ true)
            → (t ≡ tp3 → (s.tp1_hit ≡ true) × (s.tp2_hit ≡ true))
            → RoundOk t (take_profit t bar_high bar_low s actions)
        take tp1 e p q = take1 (unfold is_hit in e)
        take tp2 e p q = take2 (p refl) (unfold is_hit in e)
        take tp3 e p q = take3 (q refl).0 (q refl).1
