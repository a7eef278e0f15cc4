-- ===== src/Services/PositionManager/Stops/Targets.antt =====
-- The target loop keeps the position of a long stop.
use pyharmonics_gpt.Prelude.{
  ◌≡◌, refl, Bool, true, false, not, ◌&&◌, none, some, List, [], ◌∷◌, ◌++◌, if◌then◌else◌, ◌⊎◌, inl,
  inr,
}
use pyharmonics_gpt.Float.{Float, IsOrdered, sub, le, lit, nought, IsNumber}
use pyharmonics_gpt.Services.PositionManager.{
  PositionState, Tp, tp1, tp2, tp3, Action, Flow, is_hit, tp_price, mark_hit, close_pct, tp_touched,
  replace_size, settle, take_profit, tp_round, tp_loop, close_partial,
}
use pyharmonics_gpt.Services.PositionManager.Stops.{
  IsLong, IsCovered, MidOk, advance_stop-MidOk, before_first, at_second,
}

module _ {F : Type 0} ⦃d : Float F⦄ where
  module _ (o : IsOrdered F) (c : F) (bar_high bar_low : F) (bar : IsNumber bar_high) where
    -- The partial close goes through, or raises.
    take_profit-MidOk :
        (tp : Tp) (s : PositionState F) (actions : List (Action F))
        → ((x : F) (acts : List (Action F))
            → MidOk c
                (settle tp (record (mark_hit tp bar_high bar_low s) { size_remaining = x }) acts))
        → MidOk c (take_profit tp bar_high bar_low s actions)
    unfolding take_profit replace_size
    take_profit-MidOk tp s actions next = go (le nought left && le left (lit 1 0))
      where
        left : F
        left = sub (mark_hit tp bar_high bar_low s).size_remaining (close_pct tp)

        go :
            (b : Bool)
            → MidOk c
                (elim (if b
                  then some (record (mark_hit tp bar_high bar_low s) { size_remaining = left })
                  else none) [
                    | none ↦ Flow.raised
                    | some reduced ↦
                        settle tp reduced (actions ++ close_partial (close_pct tp) tp ∷ [])
                  ])
        go true = next left _
        go false = tt

    first-MidOk :
        (s : PositionState F) (actions : List (Action F))
        → IsLong s
        → IsCovered c s
        → s.tp1_hit ≡ false
        → MidOk c (take_profit tp1 bar_high bar_low s actions)
    unfolding mark_hit settle
    first-MidOk s actions long cover e = take_profit-MidOk tp1 s actions λ x acts.
        advance_stop-MidOk o c tp1 s.entry_price _ acts
          (record {
            bullish = long.base.bullish;
            entry-le-tp1 = long.base.entry-le-tp1;
            finite = long.base.finite;
            in_order = λ _. refl;
            anchored = λ _. (bar_high, rw long.base.bullish, bar);
          })
          refl (o.refl_of_le s.entry_price s.tp1 long.base.entry-le-tp1).0
          (λ _. (o.refl_of_le s.entry_price s.tp1 long.base.entry-le-tp1).0) cover.0
          (inl (before_first o c s long cover e))

    second-MidOk :
        (s : PositionState F) (actions : List (Action F))
        → IsLong s
        → IsCovered c s
        → s.tp1_hit ≡ true
        → s.tp2_hit ≡ false
        → MidOk c (take_profit tp2 bar_high bar_low s actions)
    unfolding mark_hit settle
    second-MidOk s actions long cover e f = take_profit-MidOk tp2 s actions λ x acts.
        advance_stop-MidOk o c tp2 s.tp1 _ acts
          (record {
            bullish = long.base.bullish;
            entry-le-tp1 = long.base.entry-le-tp1;
            finite = long.base.finite;
            in_order = λ _. e;
            anchored = long.base.anchored;
          })
          e (o.refl_of_le s.entry_price s.tp1 long.base.entry-le-tp1).1 (λ h. cc) cover.0
          (at_second o c s long cover e f)

    third-MidOk :
        (s : PositionState F) (actions : List (Action F))
        → MidOk c (take_profit tp3 bar_high bar_low s actions)
    unfolding settle
    third-MidOk s actions = take_profit-MidOk tp3 s actions (λ x acts. refl)

    -- a round, at the first target or behind it
    round-MidOk :
        (tp : Tp) (s : PositionState F) (actions : List (Action F))
        → IsLong s
        → IsCovered c s
        → (tp ≡ tp1) ⊎ (s.tp1_hit ≡ true)
        → MidOk c (tp_round tp bar_high bar_low s actions)
    unfolding tp_round
    round-MidOk tp s actions long cover earlier =
        go (is_hit tp s) (not (tp_touched bar_high bar_low (tp_price tp s) s.bullish)) refl
      where
        take :
            (t : Tp)
            → is_hit t s ≡ false
            → (t ≡ tp1) ⊎ (s.tp1_hit ≡ true)
            → MidOk c (take_profit t bar_high bar_low s actions)
        take tp1 e p = first-MidOk s actions long cover (unfold is_hit in e)
        take tp2 e (inl p) = cc
        take tp2 e (inr p) = second-MidOk s actions long cover p (unfold is_hit in e)
        take tp3 e p = third-MidOk s actions

        reached : (t : Tp) → is_hit t s ≡ true → (t ≡ tp1) ⊎ (s.tp1_hit ≡ true) → s.tp1_hit ≡ true
        reached tp1 e p = unfold is_hit in e
        reached tp2 e p = long.base.in_order (unfold is_hit in e)
        reached tp3 e (inl p) = cc
        reached tp3 e (inr p) = p

        go :
            (a b : Bool)
            → is_hit tp s ≡ a
            → MidOk c (
                if a
                then Flow.continued s actions
                else if b
                then Flow.broke s actions
                else take_profit tp bar_high bar_low s actions)
        go true b e = (long, cover, reached tp e earlier)
        go false true e = (long, cover)
        go false false e = take tp e earlier

    rounds-MidOk :
        (rest : List Tp) (flow : Flow F)
        → ((s : PositionState F) (actions : List (Action F))
            → IsLong s
            → IsCovered c s
            → s.tp1_hit ≡ true
            → MidOk c (tp_loop rest bar_high bar_low s actions))
        → MidOk c flow
        → MidOk c (elim flow [
          | Flow.continued s' actions' ↦ tp_loop rest bar_high bar_low s' actions'
          | Flow.broke s' actions' ↦ Flow.broke s' actions'
          | Flow.returned s' actions' ↦ Flow.returned s' actions'
          | Flow.raised ↦ Flow.raised
        ])
    rounds-MidOk rest (Flow.continued s actions) next (long, cover, hit) =
        next s actions long cover hit
    rounds-MidOk rest (Flow.broke s actions) next h = h
    rounds-MidOk rest (Flow.returned s actions) next h = h
    rounds-MidOk rest Flow.raised next h = h

    loop-MidOk :
        (rest : List Tp) (s : PositionState F) (actions : List (Action F))
        → IsLong s
        → IsCovered c s
        → s.tp1_hit ≡ true
        → MidOk c (tp_loop rest bar_high bar_low s actions)
    unfolding tp_loop
    loop-MidOk [] s actions long cover hit = (long, cover)
    loop-MidOk (tp ∷ rest) s actions long cover hit =
        rounds-MidOk rest (tp_round tp bar_high bar_low s actions) (loop-MidOk rest)
          (round-MidOk tp s actions long cover (inr hit))

    pub targets-MidOk :
        (s : PositionState F)
        → IsLong s
        → IsCovered c s
        → MidOk c (tp_loop (tp1 ∷ tp2 ∷ tp3 ∷ []) bar_high bar_low s [])
    unfolding tp_loop
    targets-MidOk s long cover =
        rounds-MidOk (tp2 ∷ tp3 ∷ []) (tp_round tp1 bar_high bar_low s [])
          (loop-MidOk (tp2 ∷ tp3 ∷ [])) (round-MidOk tp1 s [] long cover (inl refl))
