-- ===== src/Services/PositionManager.antt =====
-- app/services/position_manager.py: the state machine of an open position.
mod Defs
pub mod Closing
pub mod Bars
pub mod Stops
mod Tests
unfoldable pub use Defs.*
use pyharmonics_gpt.Prelude.{
  ℕ, suc, ◌+◌, ◌≡◌, Bool, true, false, not, ◌&&◌, ◌||◌, Option, none, some, List, [], ◌∷◌, ◌++◌,
  ltb, if◌then◌else◌,
}
use pyharmonics_gpt.Float.{Float, add, sub, mul, gt, ge, lt, le, lit, nought, max, min}

module _ {F : Type 0} ⦃d : Float F⦄ where
  -- One round of the loop over `tp_targets`, for a bar that touches the target.
  pub take_profit : Tp → F → F → PositionState F → List (Action F) → Flow F
  unfolding mark_hit replace_size settle
  take_profit tp bar_high bar_low s actions =
      let marked = mark_hit tp bar_high bar_low s in
      elim (replace_size marked (sub marked.size_remaining (close_pct tp))) [
        | none ↦ Flow.raised
        | some reduced ↦ settle tp reduced (actions ++ close_partial (close_pct tp) tp ∷ [])
      ]

  pub tp_round : Tp → F → F → PositionState F → List (Action F) → Flow F
  unfolding take_profit is_hit tp_touched tp_price
  tp_round tp bar_high bar_low s actions =
      if is_hit tp s
      then Flow.continued s actions
      else if not (tp_touched bar_high bar_low (tp_price tp s) s.bullish)
      then Flow.broke s actions
      else take_profit tp bar_high bar_low s actions

  pub tp_loop : List Tp → F → F → PositionState F → List (Action F) → Flow F
  tp_loop [] bar_high bar_low s actions = Flow.broke s actions
  tp_loop (tp ∷ rest) bar_high bar_low s actions = elim (tp_round tp bar_high bar_low s actions) [
    | Flow.continued s' actions' ↦ tp_loop rest bar_high bar_low s' actions'
    | Flow.broke s' actions' ↦ Flow.broke s' actions'
    | Flow.returned s' actions' ↦ Flow.returned s' actions'
    | Flow.raised ↦ Flow.raised
  ]

  -- The chandelier block: the running extreme, and the stop if the trail improves on it.
  pub trail_long : F → F → PositionState F → List (Action F) → PositionState F × List (Action F)
  trail_long bar_high prev s actions =
      let new_high = max prev bar_high in
      let s' : PositionState F = record s { chandelier_high = some new_high } in
      let trail = sub new_high (mul s.chandelier_atr_mult s.atr) in
      if gt trail s.current_stop
      then (record s' { current_stop = trail }, actions ++ move_stop trail chandelier_ratchet ∷ [])
      else (s', actions)

  pub trail_short : F → F → PositionState F → List (Action F) → PositionState F × List (Action F)
  trail_short bar_low prev s actions =
      let new_low = min prev bar_low in
      let s' : PositionState F = record s { chandelier_low = some new_low } in
      let trail = add new_low (mul s.chandelier_atr_mult s.atr) in
      if lt trail s.current_stop
      then (record s' { current_stop = trail }, actions ++ move_stop trail chandelier_ratchet ∷ [])
      else (s', actions)

  pub ratchet : F → F → PositionState F → List (Action F) → PositionState F × List (Action F)
  unfolding trail_long trail_short or_bar
  ratchet bar_high bar_low s actions =
      if s.tp1_hit && (not s.closed && ltb 0 s.bars_held)
      then (if s.bullish
          then trail_long bar_high (or_bar s.chandelier_high bar_high) s actions
          else trail_short bar_low (or_bar s.chandelier_low bar_low) s actions)
      else (s, actions)

  pub hold_if_idle : PositionState F × List (Action F) → PositionState F × List (Action F)
  hold_if_idle (s, []) = (s, hold bar_no_event ∷ [])
  hold_if_idle (s, a ∷ actions) = (s, a ∷ actions)

  -- The part of `process_bar` behind the stop and the time stop.
  pub run_targets : F → F → PositionState F → Outcome F
  unfolding tp_loop tp_round ratchet hold_if_idle
  run_targets bar_high bar_low s = elim (tp_loop (tp1 ∷ tp2 ∷ tp3 ∷ []) bar_high bar_low s []) [
    | Flow.returned s' actions ↦ Outcome.ok s' actions
    | Flow.raised ↦ Outcome.value_error
    | Flow.broke s' actions ↦ finish (hold_if_idle (ratchet bar_high bar_low s' actions))
    | Flow.continued s' actions ↦ finish (hold_if_idle (ratchet bar_high bar_low s' actions))
  ]

  -- `process_bar` inside its contract decorators; it does not read the close of the bar.
  pub advance : F → F → PositionState F → Outcome F
  unfolding run_targets stop_hit
  advance bar_high bar_low s =
      if s.closed
      then Outcome.ok s (hold already_closed ∷ [])
      else let s1 : PositionState F = record s { bars_held = s.bars_held + 1 } in
        if stop_hit bar_high bar_low s.current_stop s.bullish
        then Outcome.ok (close_out stop s1) (close_all initial_or_trail_stop_hit ∷ [])
        else if gt (lit (s.bars_held + 1) 0) (mul s.time_stop_cd_mult (lit s.cd_leg_bars 0))
        then Outcome.ok (close_out time_stop s1) (close_all time_stop_reached ∷ [])
        else run_targets bar_high bar_low s1

  pub process_bar : F → F → PositionState F → Outcome F
  unfolding advance is_sane ensure_reason
  process_bar bar_high bar_low s =
      if is_sane s then ensure_reason (advance bar_high bar_low s) else Outcome.violation
