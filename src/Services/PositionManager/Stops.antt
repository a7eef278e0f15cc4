-- ===== src/Services/PositionManager/Stops.antt =====
-- Where the stop of a long position stands, and what each move of it keeps.
pub mod Targets
pub mod Ratchet
pub mod Monotone
use pyharmonics_gpt.Prelude.{
  ℕ, suc, ◌+◌, ◌≡◌, refl, ap, Bool, true, false, not, ◌&&◌, ◌||◌, Option, none, some, List, [], ◌∷◌,
  ◌++◌, if◌then◌else◌, arith, ◌⊎◌, inl, inr, ltb, Bool-cases, Option-cases,
}
use pyharmonics_gpt.Float.{
  Float, IsOrdered, add, sub, mul, gt, ge, lt, le, lit, nought, max, min, IsNumber, le-max_left,
  lt_of_lt_of_le,
}
use pyharmonics_gpt.Services.PositionManager.{
  PositionState, Tp, tp1, tp2, tp3, Action, Flow, Outcome, CloseReason, is_hit, tp_price, mark_hit,
  close_pct, tp_touched, stop_hit, differ, close_out, replace_size, advance_stop, settle, is_sane,
  ensure_reason, take_profit, tp_round, tp_loop, trail_long, trail_short, ratchet, hold_if_idle,
  run_targets, advance, process_bar, or_bar, finish, stop, time_stop, move_stop, after,
  close_partial,
}

-- Rounding keeps the order of two differences with one subtrahend, where neither is NaN.
pub record SubMonotone (F : Type 0) ⦃d : Float F⦄ : Type 0 where
  pub sub_mono :
      (x y z : F)
      → IsNumber (sub x z)
      → IsNumber (sub y z)
      → le x y ≡ true
      → le (sub x z) (sub y z) ≡ true

module _ {F : Type 0} ⦃d : Float F⦄ where
  -- the trail that a running high gives
  abbrev pub trail_of : PositionState F → F → F
  trail_of s high = sub high (mul s.chandelier_atr_mult s.atr)

  -- `c` is no higher than the trail of the running high
  abbrev pub IsTrailed : F → PositionState F → Type 0
  IsTrailed c s = (h : F) × (s.chandelier_high ≡ some h) × (le c (trail_of s h) ≡ true)

  -- A long position past or before its first target, whatever its stop: the entry is no higher than
  -- the first target, `k * atr` is finite, and the chandelier has its anchor.
  pub record IsLongBase (s : PositionState F) : Type 0 where
    pub bullish : s.bullish ≡ true
    pub entry-le-tp1 : le s.entry_price s.tp1 ≡ true
    pub finite : (x : F) → IsNumber x → IsNumber (trail_of s x)
    pub in_order : s.tp2_hit ≡ true → s.tp1_hit ≡ true
    pub anchored : s.tp1_hit ≡ true → (h : F) × (s.chandelier_high ≡ some h) × IsNumber h

  -- The stop is where the targets that were hit and the trail have put it.
  pub record IsLong (s : PositionState F) : Type 0 where
    pub base : IsLongBase s
    pub number : IsNumber s.current_stop
    pub before : s.tp1_hit ≡ false → le s.current_stop s.entry_price ≡ true
    pub between :
        s.tp1_hit ≡ true
        → s.tp2_hit ≡ false
        → (le s.current_stop s.entry_price ≡ true) ⊎ IsTrailed s.current_stop s

  -- `c` is no higher than the stop in place, or than the trail that the bar is about to apply
  abbrev pub IsCovered : F → PositionState F → Type 0
  IsCovered c s =
      (ltb 0 s.bars_held ≡ true)
      × ((le c s.current_stop ≡ true) ⊎ ((s.tp1_hit ≡ true) × IsTrailed c s))

  abbrev pub MidOk : F → Flow F → Type 0
  MidOk c (Flow.continued s actions) = IsLong s × IsCovered c s × (s.tp1_hit ≡ true)
  MidOk c (Flow.broke s actions) = IsLong s × IsCovered c s
  MidOk c (Flow.returned s actions) = s.closed ≡ true
  MidOk c Flow.raised = Unit

  module _ (o : IsOrdered F) (c : F) where
    -- A position that has hit its first target, with a stop that is no lower than `c`.
    restop :
        (s : PositionState F)
        → IsLongBase s
        → s.tp1_hit ≡ true
        → IsNumber s.current_stop
        → (s.tp2_hit ≡ false → le s.current_stop s.entry_price ≡ true)
        → ltb 0 s.bars_held ≡ true
        → (le c s.current_stop ≡ true) ⊎ IsTrailed c s
        → IsLong s × IsCovered c s
    restop s base hit number bound counted cover = (
      record { base = base; number = number; before = λ e. cc; between = λ e f. inl (bound f) },
      (counted, elim cover [ inl x ↦ inl x | inr x ↦ inr (hit, x) ]),
    )

    moved_base :
        (s : PositionState F) (v : F) → IsLongBase s → IsLongBase (record s { current_stop = v })
    moved_base s v h = record {
      bullish = h.bullish;
      entry-le-tp1 = h.entry-le-tp1;
      finite = h.finite;
      in_order = h.in_order;
      anchored = h.anchored;
    }

    pub advance_stop-MidOk :
        (tp : Tp) (v : F) (s : PositionState F) (actions : List (Action F))
        → IsLongBase s
        → s.tp1_hit ≡ true
        → IsNumber v
        → (s.tp2_hit ≡ false → le v s.entry_price ≡ true)
        → ltb 0 s.bars_held ≡ true
        → (le c v ≡ true) ⊎ IsTrailed c s
        → MidOk c (advance_stop tp v s actions)
    unfolding advance_stop
    advance_stop-MidOk tp v s actions base hit number bound counted cover =
        go (differ v s.current_stop) refl
      where
        go :
            (b : Bool)
            → differ v s.current_stop ≡ b
            → MidOk c (
                if b
                then Flow.continued
                    (record s { current_stop = v })
                    (actions ++ move_stop v (after tp) ∷ [])
                else Flow.continued s actions)
        go true e =
            let r =
              restop (record s { current_stop = v }) (moved_base s v base) hit number bound counted
                cover in
            (r.0, r.1, hit)
        go false e =
            let up : le v s.current_stop ≡ true = ground (arith, e) in
            let down : le s.current_stop v ≡ true = ground (arith, e) in
            let r =
              restop s base hit (o.refl_of_le v s.current_stop up).1
                (λ f. o.le_trans s.current_stop v s.entry_price down (bound f)) counted
                (elim cover [ inl x ↦ inl (o.le_trans c v s.current_stop x up) | inr x ↦ inr x ]) in
            (r.0, r.1, hit)

    -- what is known of `c` before the first target is hit
    pub before_first :
        (s : PositionState F)
        → IsLong s
        → IsCovered c s
        → s.tp1_hit ≡ false
        → le c s.entry_price ≡ true
    before_first s long (n, inl x) e = o.le_trans c s.current_stop s.entry_price x (long.before e)
    before_first s long (n, inr x) e = cc (x.0)

    -- the second target finds `c` below the entry, or below the trail
    pub at_second :
        (s : PositionState F)
        → IsLong s
        → IsCovered c s
        → s.tp1_hit ≡ true
        → s.tp2_hit ≡ false
        → (le c s.tp1 ≡ true) ⊎ IsTrailed c s
    at_second s long (n, inr x) e f = inr x.1
    at_second s long (n, inl x) e f = elim (long.between e f) [
      | inl y ↦ inl (
          o.le_trans c s.current_stop s.tp1 x
            (o.le_trans s.current_stop s.entry_price s.tp1 y long.base.entry-le-tp1))
      | inr (h, a, y) ↦ inr (h, a, o.le_trans c s.current_stop (trail_of s h) x y)
    ]
