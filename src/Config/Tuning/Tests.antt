-- ===== src/Config/Tuning/Tests.antt =====
-- The committed constants, in thousandths, and what is refused.
use pyharmonics_gpt.Prelude.{◌≡◌, refl, none, some, [], ℤ, pos, ◌+ℤ◌, ◌-ℤ◌}
use pyharmonics_gpt.Float.Fixed.{milli_float, milli_add, milli_sub, Milli-IsOrdered}
use pyharmonics_gpt.Dict.{lookup, contains}
use pyharmonics_gpt.Config.Tuning.{
  TuningConstants, authenticity_order, is_member, lacks_member, lacks_key, sum_ℤ, sum_values,
  standard_out_of_bounds, hard_checks, soft_checks, window_checks, int_fields, post_init, tuning,
}
use pyharmonics_gpt.Config.Tuning.Fields.{built, from_dict, to_dict}
use pyharmonics_gpt.Config.Tuning.Scopes.{Body, done, raises, apply, reset, scope, enter, run}
use pyharmonics_gpt.Config.Tuning.Scopes.{InForce, run-InForce}
use pyharmonics_gpt.Config.Tuning.Coherence.{IsCoherent, post_init-IsCoherent}
use pyharmonics_gpt.Config.Tuning.RoundTrip.{with_sorted, from_dict-to_dict}

abbrev live : TuningConstants ℤ
live = tuning

live_is_accepted : post_init live ≡ none
unfolding post_init hard_checks soft_checks window_checks int_fields lacks_member lacks_key
    is_member sum_ℤ sum_values standard_out_of_bounds contains lookup milli_add milli_sub ◌+ℤ◌ ◌-ℤ◌
live_is_accepted = refl

veto_at_halve : post_init (record live { authenticity_veto = pos 40 }) ≡ some authenticity_order
unfolding post_init hard_checks soft_checks window_checks int_fields lacks_member lacks_key
    is_member sum_ℤ sum_values standard_out_of_bounds contains lookup milli_add milli_sub ◌+ℤ◌ ◌-ℤ◌
veto_at_halve = refl

post_init-IsCoherent_example : IsCoherent live
post_init-IsCoherent_example =
    post_init-IsCoherent Milli-IsOrdered live refl refl refl live_is_accepted

from_dict-to_dict_example : from_dict (to_dict live) ≡ built (with_sorted live)
from_dict-to_dict_example = from_dict-to_dict live live_is_accepted

abbrev trial : TuningConstants ℤ
trial = record live { a_grade_min = pos 75 }

abbrev nested : Body ℤ
nested = apply live (scope live (reset raises) done)

run-InForce_example :
    InForce trial [] (run nested (enter trial (record { applied = none; context = [] })))
run-InForce_example = run-InForce trial nested (record { applied = none; context = [] })
