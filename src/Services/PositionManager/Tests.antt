-- ===== src/Services/PositionManager/Tests.antt =====
-- The position manager's theorems on a long position, with prices in thousandths.
use pyharmonics_gpt.Prelude.{◌≡◌, refl, true, false, none, some, List, [], ◌∷◌, ℤ, pos, arith}
use pyharmonics_gpt.Float.{le, IsNumber, sub, sub}
use pyharmonics_gpt.Float.Fixed.{milli_float, milli_sub, milli_mul, Milli-IsOrdered}
use pyharmonics_gpt.Services.PositionManager.{
  PositionState, tp1, Action, Outcome, process_bar, move_stop, close_partial, after,
  chandelier_ratchet,
}
use pyharmonics_gpt.Services.PositionManager.Closing.{SizesFit, IsConsistent}
use pyharmonics_gpt.Services.PositionManager.Bars.{Returns, process_bar-Returns}
use pyharmonics_gpt.Services.PositionManager.Stops.{SubMonotone, IsLong}
use pyharmonics_gpt.Services.PositionManager.Stops.Monotone.{current_stop-monotone}

abbrev opened : PositionState ℤ
opened = record {
  bullish = true;
  entry_price = pos 100_000;
  initial_stop = pos 95_000;
  current_stop = pos 95_000;
  tp1 = pos 105_000;
  tp2 = pos 110_000;
  tp3 = pos 120_000;
  atr = pos 2_000;
  cd_leg_bars = 10;
  chandelier_period = 22;
  chandelier_atr_mult = pos 2_000;
  time_stop_cd_mult = pos 1_500;
  bars_held = 0;
  size_remaining = pos 1_000;
  tp1_hit = false;
  tp2_hit = false;
  tp3_hit = false;
  closed = false;
  close_reason = none;
  chandelier_high = none;
  chandelier_low = none;
}

-- after a bar from 99 to 106: half closed, the stop first at the entry, then on the trail
abbrev after_first : PositionState ℤ
after_first = record opened {
  bars_held = 1;
  size_remaining = pos 500;
  tp1_hit = true;
  current_stop = pos 102_000;
  chandelier_high = some (pos 106_000);
}

abbrev first_actions : List (Action ℤ)
first_actions =
    close_partial (pos 500) tp1
    ∷ move_stop (pos 100_000) (after tp1)
    ∷ move_stop (pos 102_000) chandelier_ratchet
    ∷ []

first_bar : process_bar (pos 106_000) (pos 99_000) opened ≡ Outcome.ok after_first first_actions
unfolding process_bar milli_mul milli_sub
first_bar = refl

milli_SizesFit : SizesFit ℤ
unfolding milli_sub
milli_SizesFit = record { none_left = refl; full = refl; half = refl; fifth = refl; rest = refl }

milli_SubMonotone : SubMonotone ℤ
unfolding milli_sub
milli_SubMonotone = record { sub_mono = λ x y z a b h. ground arith }

opened-IsConsistent : IsConsistent opened
opened-IsConsistent = record {
  prices = refl;
  in_order = λ h. h;
  third_closes = λ h. cc;
  open_size = λ h. refl;
  closed_size = λ h. cc;
  reason = λ h. cc;
}

process_bar-Returns_example : Returns (process_bar (pos 106_000) (pos 99_000) opened)
process_bar-Returns_example =
    process_bar-Returns milli_SizesFit (pos 106_000) (pos 99_000) opened opened-IsConsistent

milli_IsNumber : (x : ℤ) → IsNumber x
milli_IsNumber x = ground arith

opened-IsLong : IsLong opened
opened-IsLong = record {
  base = record {
    bullish = refl;
    entry-le-tp1 = refl;
    finite = λ x h. milli_IsNumber (sub x _);
    in_order = λ h. h;
    anchored = λ h. cc;
  };
  number = refl;
  before = λ h. refl;
  between = λ h. cc;
}

current_stop-monotone_example : IsLong after_first × (le (pos 95_000) (pos 102_000) ≡ true)
current_stop-monotone_example =
    current_stop-monotone Milli-IsOrdered milli_SubMonotone (pos 106_000) (pos 99_000) opened
      after_first first_actions refl opened-IsLong first_bar refl
