-- ===== src/Services/PositionManager/Stops/Ratchet.antt =====
-- The stop of a long position never moves down, whatever the bars.
use mathlib.Core.Path.{subst}
use pyharmonics_gpt.Prelude.{
  ◌≡◌, refl, Bool, true, false, not, ◌&&◌, some, List, [], ◌∷◌, ◌++◌, if◌then◌else◌, arith, inl,
  inr, ltb,
}
use pyharmonics_gpt.Float.{Float, IsOrdered, gt, le, max, IsNumber, le-max_left, le_of_not_lt}
use pyharmonics_gpt.Services.PositionManager.{
  PositionState, Action, trail_long, trail_short, ratchet, or_bar, move_stop, chandelier_ratchet,
}
use pyharmonics_gpt.Services.PositionManager.Stops.{
  SubMonotone, trail_of, IsTrailed, IsLongBase, IsLong, IsCovered,
}

module _ {F : Type 0} ⦃d : Float F⦄ (o : IsOrdered F) (m : SubMonotone F) where
  -- an open result: still long, its stop no lower than `c`
  abbrev pub StopOk : F → PositionState F → Type 0
  StopOk c s = s.closed ≡ false → IsLong s × (le c s.current_stop ≡ true)

  -- a value below the trail of the old high is below the trail of the new one
  IsTrailed-raise :
      (c bar_high h : F) (s : PositionState F)
      → IsNumber bar_high
      → IsNumber h
      → IsLongBase s
      → s.chandelier_high ≡ some h
      → IsTrailed c s
      → le c (trail_of s (max h bar_high)) ≡ true
  IsTrailed-raise c bar_high h s bar hn base anchor (h', e, low) =
      let same : le c (trail_of s h) ≡ true = ground (arith, e, anchor, low) in
      let number : IsNumber (max h bar_high) = ground (arith, bar, hn) in
      o.le_trans c (trail_of s h) (trail_of s (max h bar_high)) same (
        m.sub_mono h (max h bar_high) _ (base.finite h hn) (base.finite _ number)
          (le-max_left o h bar_high hn))

  raised_base :
      (s : PositionState F) (v h : F)
      → IsLongBase s
      → IsNumber h
      → IsLongBase (record s { current_stop = v; chandelier_high = some h })
  raised_base s v h base number = record {
    bullish = base.bullish;
    entry-le-tp1 = base.entry-le-tp1;
    finite = base.finite;
    in_order = base.in_order;
    anchored = λ _. (h, refl, number);
  }

  -- The trail is applied where it is above the stop in place.
  trail_long-StopOk :
      (c bar_high h : F) (s : PositionState F) (actions : List (Action F))
      → IsNumber bar_high
      → IsLong s
      → IsCovered c s
      → s.tp1_hit ≡ true
      → s.chandelier_high ≡ some h
      → IsNumber h
      → StopOk c (trail_long bar_high h s actions).0
  unfolding trail_long
  trail_long-StopOk c bar_high h s actions bar long cover hit anchor hn =
      go (gt (trail_of s (max h bar_high)) s.current_stop) refl
    where
      number : IsNumber (max h bar_high)
      number = ground (arith, bar, hn)

      raise : (x : F) → IsTrailed x s → le x (trail_of s (max h bar_high)) ≡ true
      raise x = IsTrailed-raise x bar_high h s bar hn long.base anchor

      go :
          (b : Bool)
          → gt (trail_of s (max h bar_high)) s.current_stop ≡ b
          → let result : PositionState F × List (Action F) =
              if b
              then (
                record s {
                  chandelier_high = some (max h bar_high);
                  current_stop = trail_of s (max h bar_high);
                },
                actions ++ move_stop (trail_of s (max h bar_high)) chandelier_ratchet ∷ [],
              )
              else (record s { chandelier_high = some (max h bar_high) }, actions) in
            StopOk c result.0
      go true e open_after = (
        record {
          base = raised_base s _ _ long.base number;
          number = long.base.finite _ number;
          before = λ f. cc;
          between = λ f g. inr (max h bar_high, refl, long.base.finite _ number);
        },
        elim cover.1 [
          | inl low ↦ o.le_trans c s.current_stop _ low (o.le_of_lt s.current_stop _ e)
          | inr (f, t) ↦ raise c t
        ],
      )
      go false e open_after =
          let above =
            le_of_not_lt o s.current_stop (trail_of s (max h bar_high)) long.number
              (long.base.finite _ number) e in
          (
            record {
              base = raised_base s s.current_stop _ long.base number;
              number = long.number;
              before = long.before;
              between = λ f g. elim (long.between f g) [
                | inl low ↦ inl low
                | inr t ↦ inr (max h bar_high, refl, raise s.current_stop t)
              ];
            },
            elim cover.1 [
              | inl low ↦ low
              | inr (f, t) ↦ o.le_trans c _ s.current_stop (raise c t) above
            ],
          )

  abbrev Result : Type 0
  Result = PositionState F × List (Action F)

  StopOk-if :
      (c : F) (b : Bool) (x y : Result)
      → (b ≡ true → StopOk c x.0)
      → (b ≡ false → StopOk c y.0)
      → let r : Result = if b then x else y in StopOk c r.0
  StopOk-if c true x y h k = h refl
  StopOk-if c false x y h k = k refl

  -- `ratchet`, after a loop that has kept the stop
  pub ratchet-StopOk :
      (c bar_high bar_low : F) (s : PositionState F) (actions : List (Action F))
      → IsNumber bar_high
      → IsLong s
      → IsCovered c s
      → StopOk c (ratchet bar_high bar_low s actions).0
  unfolding ratchet
  ratchet-StopOk c bar_high bar_low s actions bar long cover =
      StopOk-if c (s.tp1_hit && (not s.closed && ltb 0 s.bars_held)) _ (s, actions)
        (λ on.
          StopOk-if c s.bullish (trail_long bar_high (or_bar s.chandelier_high bar_high) s actions)
            (trail_short bar_low (or_bar s.chandelier_low bar_low) s actions)
            (λ _. trailing (ground (arith, on))) (λ short. cc (long.base.bullish)))
        (λ off open_after. (long, kept off open_after))
    where
      trailing :
          s.tp1_hit ≡ true
          → StopOk c (trail_long bar_high (or_bar s.chandelier_high bar_high) s actions).0
      trailing hit =
          let (h, anchor, number) = long.base.anchored hit in
          let same : h ≡ or_bar s.chandelier_high bar_high = ground (arith, anchor) in
          subst (λ x. StopOk c (trail_long bar_high x s actions).0) same
            (trail_long-StopOk c bar_high h s actions bar long cover hit anchor number)

      kept :
          s.tp1_hit && (not s.closed && ltb 0 s.bars_held) ≡ false
          → s.closed ≡ false
          → le c s.current_stop ≡ true
      kept off open_after = elim cover.1 [
        | inl low ↦ low
        | inr (hit, t) ↦ ground (arith, cover.0, hit, off, open_after)
      ]
