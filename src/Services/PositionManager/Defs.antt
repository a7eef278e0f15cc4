-- ===== src/Services/PositionManager/Defs.antt =====
-- The value objects of position_manager.py, and its helpers.
use pyharmonics_gpt.Prelude.{
  ℕ, Bool, true, not, ◌&&◌, Option, none, some, List, [], ◌∷◌, ◌++◌, if◌then◌else◌,
}
use pyharmonics_gpt.Float.{Float, gt, ge, le, lit, nought}

pub data CloseReason : Type 0 where
  stop time_stop target_three : CloseReason

pub record PositionState (F : Type 0) : Type 0 where
  pub bullish : Bool
  pub entry_price : F
  pub initial_stop : F
  pub current_stop : F
  pub tp1 : F
  pub tp2 : F
  pub tp3 : F
  pub atr : F
  pub cd_leg_bars : ℕ
  pub chandelier_period : ℕ
  pub chandelier_atr_mult : F
  pub time_stop_cd_mult : F
  pub bars_held : ℕ
  pub size_remaining : F
  pub tp1_hit : Bool
  pub tp2_hit : Bool
  pub tp3_hit : Bool
  pub closed : Bool
  pub close_reason : Option CloseReason
  pub chandelier_high : Option F
  pub chandelier_low : Option F

pub data Tp : Type 0 where
  tp1 tp2 tp3 : Tp

pub data Reason : Type 0 where
  already_closed bar_no_event initial_or_trail_stop_hit time_stop_reached : Reason
  tp3_full_close chandelier_ratchet : Reason
  hit after : Tp → Reason

pub data Action (F : Type 0) : Type 0 where
  hold : Reason → Action F
  close_partial : F → Tp → Action F
  move_stop : F → Reason → Action F
  close_all : Reason → Action F

-- How a round of the target loop ends: `continue`, `break`, `return`, or a ValueError.
pub data Flow (F : Type 0) : Type 0 where
  continued broke returned : PositionState F → List (Action F) → Flow F
  raised : Flow F

-- How a call ends; `violation` is the contract's ViolationError.
pub data Outcome (F : Type 0) : Type 0 where
  ok : PositionState F → List (Action F) → Outcome F
  value_error violation : Outcome F

abbrev pub finish : {F : Type 0} → PositionState F × List (Action F) → Outcome F
finish (s, actions) = Outcome.ok s actions

module _ {F : Type 0} where
  unfoldable pub is_hit : Tp → PositionState F → Bool
  is_hit tp1 s = s.tp1_hit
  is_hit tp2 s = s.tp2_hit
  is_hit tp3 s = s.tp3_hit

  unfoldable pub tp_price : Tp → PositionState F → F
  tp_price tp1 s = s.tp1
  tp_price tp2 s = s.tp2
  tp_price tp3 s = s.tp3

  -- `updates`: the flag, and at the first target the anchor of the chandelier
  unfoldable pub mark_hit : Tp → F → F → PositionState F → PositionState F
  mark_hit tp1 bar_high bar_low s = record s {
    tp1_hit = true;
    chandelier_high = if s.bullish then some bar_high else none;
    chandelier_low = if not s.bullish then some bar_low else none;
  }
  mark_hit tp2 bar_high bar_low s = record s { tp2_hit = true }
  mark_hit tp3 bar_high bar_low s = record s { tp3_hit = true }

  -- `prev if prev is not None else bar`
  unfoldable pub or_bar : Option F → F → F
  or_bar none bar = bar
  or_bar (some prev) bar = prev

module _ {F : Type 0} ⦃d : Float F⦄ where
  abbrev pub close_pct : Tp → F
  close_pct tp1 = lit 5 1
  close_pct tp2 = lit 3 1
  close_pct tp3 = lit 2 1

  -- `x != y`
  abbrev pub differ : F → F → Bool
  differ x y = not (le x y && le y x)

  unfoldable pub tp_touched : F → F → F → Bool → Bool
  tp_touched bar_high bar_low tp bullish = if bullish then ge bar_high tp else le bar_low tp

  unfoldable pub stop_hit : F → F → F → Bool → Bool
  stop_hit bar_high bar_low s bullish = if bullish then le bar_low s else ge bar_high s

  abbrev pub close_out : CloseReason → PositionState F → PositionState F
  close_out reason s = record s {
    closed = true;
    size_remaining = nought;
    close_reason = some reason;
  }

  -- `dataclasses.replace` runs `__post_init__`, which refuses a size outside [0, 1].
  unfoldable pub replace_size : PositionState F → F → Option (PositionState F)
  replace_size s size =
      if le nought size && le size (lit 1 0)
      then some (record s { size_remaining = size })
      else none

  -- moves the stop if it differs from the one in place
  unfoldable pub advance_stop : Tp → F → PositionState F → List (Action F) → Flow F
  advance_stop tp new_stop s actions =
      if differ new_stop s.current_stop
      then Flow.continued (record s { current_stop = new_stop })
          (actions ++ move_stop new_stop (after tp) ∷ [])
      else Flow.continued s actions

  -- what follows the partial close: the stop to the entry, to the first target, or the end
  unfoldable pub settle : Tp → PositionState F → List (Action F) → Flow F
  unfolding advance_stop
  settle tp1 s actions = advance_stop tp1 s.entry_price s actions
  settle tp2 s actions = advance_stop tp2 s.tp1 s actions
  settle tp3 s actions =
      Flow.returned (close_out target_three s) (actions ++ close_all tp3_full_close ∷ [])

  -- the @require conditions, which `__post_init__` repeats
  unfoldable pub is_sane : PositionState F → Bool
  is_sane s =
      gt s.entry_price nought
      && (gt s.initial_stop nought
          && (gt s.tp1 nought
              && (gt s.tp2 nought
                  && (gt s.tp3 nought
                      && (gt s.atr nought
                          && (le nought s.size_remaining && le s.size_remaining (lit 1 0)))))))

  -- the @ensure condition
  unfoldable pub ensure_reason : Outcome F → Outcome F
  ensure_reason (Outcome.ok s actions) =
      if s.closed
      then elim s.close_reason [ none ↦ Outcome.violation | some r ↦ Outcome.ok s actions ]
      else Outcome.ok s actions
  ensure_reason Outcome.value_error = Outcome.value_error
  ensure_reason Outcome.violation = Outcome.violation
