-- ===== src/Services/PositionManager/Stops/Monotone.antt =====
-- The stop of a long position never moves down, whatever the bars.
use mathlib.Core.Path.{subst}
use pyharmonics_gpt.Prelude.{
  ◌+◌, ◌≡◌, refl, Bool, true, false, none, some, List, [], ◌∷◌, if◌then◌else◌, arith, inl,
}
use pyharmonics_gpt.Float.{Float, IsOrdered, mul, gt, le, lit, IsNumber}
use pyharmonics_gpt.Services.PositionManager.{
  PositionState, tp1, tp2, tp3, Action, Flow, Outcome, stop_hit, close_out, is_sane, ensure_reason,
  tp_loop, ratchet, hold_if_idle, run_targets, advance, process_bar, finish, stop, time_stop, hold,
  already_closed, close_all, initial_or_trail_stop_hit, time_stop_reached,
}
use pyharmonics_gpt.Services.PositionManager.Stops.{SubMonotone, IsLong, IsCovered, MidOk}
use pyharmonics_gpt.Services.PositionManager.Stops.Targets.{targets-MidOk}
use pyharmonics_gpt.Services.PositionManager.Stops.Ratchet.{StopOk, ratchet-StopOk}

module _ {F : Type 0} ⦃d : Float F⦄ (o : IsOrdered F) (m : SubMonotone F) where
  abbrev OutcomeOk : F → Outcome F → Type 0
  OutcomeOk c (Outcome.ok s actions) = StopOk o m c s
  OutcomeOk c Outcome.value_error = Unit
  OutcomeOk c Outcome.violation = Unit

  hold_if_idle-OutcomeOk :
      (c : F) (s : PositionState F) (actions : List (Action F))
      → StopOk o m c s
      → OutcomeOk c (finish (hold_if_idle (s, actions)))
  unfolding hold_if_idle
  hold_if_idle-OutcomeOk c s [] h = h
  hold_if_idle-OutcomeOk c s (a ∷ actions) h = h

  module _ (c bar_high bar_low : F) (bar : IsNumber bar_high) where
    run_targets-OutcomeOk :
        (s : PositionState F)
        → IsLong s
        → IsCovered c s
        → OutcomeOk c (run_targets bar_high bar_low s)
    unfolding run_targets
    run_targets-OutcomeOk s long cover =
        go (tp_loop (tp1 ∷ tp2 ∷ tp3 ∷ []) bar_high bar_low s [])
          (targets-MidOk o c bar_high bar_low bar s long cover)
      where
        trailed :
            (s' : PositionState F) (actions : List (Action F))
            → IsLong s'
            → IsCovered c s'
            → OutcomeOk c (finish (hold_if_idle (ratchet bar_high bar_low s' actions)))
        trailed s' actions l k =
            let r = ratchet bar_high bar_low s' actions in
            hold_if_idle-OutcomeOk c r.0 r.1
              (ratchet-StopOk o m c bar_high bar_low s' actions bar l k)

        go :
            (flow : Flow F)
            → MidOk c flow
            → OutcomeOk c (elim flow [
              | Flow.returned s' actions ↦ Outcome.ok s' actions
              | Flow.raised ↦ Outcome.value_error
              | Flow.broke s' actions ↦ finish (hold_if_idle (ratchet bar_high bar_low s' actions))
              | Flow.continued s' actions ↦
                  finish (hold_if_idle (ratchet bar_high bar_low s' actions))
            ])
        go (Flow.continued s' actions) (l, k, hit) = trailed s' actions l k
        go (Flow.broke s' actions) (l, k) = trailed s' actions l k
        go (Flow.returned s' actions) closed = λ open_after. cc
        go Flow.raised h = tt

  OutcomeOk-if :
      (c : F) (b : Bool) (x y : Outcome F)
      → (b ≡ true → OutcomeOk c x)
      → (b ≡ false → OutcomeOk c y)
      → OutcomeOk c (if b then x else y)
  OutcomeOk-if c true x y h k = h refl
  OutcomeOk-if c false x y h k = k refl

  counted-IsLong :
      (s : PositionState F) → IsLong s → IsLong (record s { bars_held = s.bars_held + 1 })
  counted-IsLong s h = record {
    base = record {
      bullish = h.base.bullish;
      entry-le-tp1 = h.base.entry-le-tp1;
      finite = h.base.finite;
      in_order = h.base.in_order;
      anchored = h.base.anchored;
    };
    number = h.number;
    before = h.before;
    between = h.between;
  }

  advance-OutcomeOk :
      (bar_high bar_low : F) (s : PositionState F)
      → IsNumber bar_high
      → IsLong s
      → OutcomeOk s.current_stop (advance bar_high bar_low s)
  unfolding advance
  advance-OutcomeOk bar_high bar_low s bar long =
      let c = s.current_stop in
      let s1 : PositionState F = record s { bars_held = s.bars_held + 1 } in
      OutcomeOk-if c s.closed (Outcome.ok s (hold already_closed ∷ [])) _ (λ e f. cc)
        λ e.
          OutcomeOk-if c (stop_hit bar_high bar_low s.current_stop s.bullish)
            (Outcome.ok (close_out stop s1) (close_all initial_or_trail_stop_hit ∷ [])) _
            (λ f g. cc)
            λ f.
              OutcomeOk-if c
                (gt (lit (s.bars_held + 1) 0) (mul s.time_stop_cd_mult (lit s.cd_leg_bars 0)))
                (Outcome.ok (close_out time_stop s1) (close_all time_stop_reached ∷ []))
                (run_targets bar_high bar_low s1) (λ g k. cc)
                (λ g.
                  run_targets-OutcomeOk c bar_high bar_low bar s1 (counted-IsLong s long)
                    (ground arith, inl long.number))

  ensure_reason-OutcomeOk : (c : F) (r : Outcome F) → OutcomeOk c r → OutcomeOk c (ensure_reason r)
  unfolding ensure_reason
  ensure_reason-OutcomeOk c (Outcome.ok s actions) h =
      OutcomeOk-if c s.closed _ (Outcome.ok s actions)
        (λ e.
          elim s.close_reason
            as (λ x.
              OutcomeOk c (elim x [ none ↦ Outcome.violation | some r ↦ Outcome.ok s actions ])) [
                | none ↦ tt
                | some r ↦ h
              ])
        (λ e. h)
  ensure_reason-OutcomeOk c Outcome.value_error h = tt
  ensure_reason-OutcomeOk c Outcome.violation h = tt

  process_bar-OutcomeOk :
      (bar_high bar_low : F) (s : PositionState F)
      → IsNumber bar_high
      → IsLong s
      → OutcomeOk s.current_stop (process_bar bar_high bar_low s)
  unfolding process_bar
  process_bar-OutcomeOk bar_high bar_low s bar long =
      OutcomeOk-if s.current_stop (is_sane s) (ensure_reason (advance bar_high bar_low s))
        Outcome.violation
        (λ e.
          ensure_reason-OutcomeOk s.current_stop _ (advance-OutcomeOk bar_high bar_low s bar long))
        (λ e. tt)

  -- A bar whose high is a number, on a long position whose entry is no higher than its first target
  -- and whose stop was set by this machine: if the position stays open, it is such a position again
  -- and its stop is no lower than before.
  pub current_stop-monotone :
      (bar_high bar_low : F) (s s' : PositionState F) (actions : List (Action F))
      → IsNumber bar_high
      → IsLong s
      → process_bar bar_high bar_low s ≡ Outcome.ok s' actions
      → s'.closed ≡ false
      → IsLong s' × (le s.current_stop s'.current_stop ≡ true)
  current_stop-monotone bar_high bar_low s s' actions bar long e open_after =
      subst (OutcomeOk s.current_stop) e (process_bar-OutcomeOk bar_high bar_low s bar long)
        open_after
