-- ===== src/Loop/Mutation/DefaultFits.antt =====
-- The default map: no attempt on its members ends by an error other than that of `__post_init__`.
use pyharmonics_gpt.Prelude.{◌≡◌, refl, sym, subst, Option, none, some, [], ◌∷◌, String, ℤ}
use pyharmonics_gpt.Float.{Float}
use pyharmonics_gpt.Dict.{Dict, lookup}
use pyharmonics_gpt.Config.Tuning.{TuningConstants, post_init}
use pyharmonics_gpt.Config.Tuning.Fields.{Value, float, int, floats, read, fields, overlay}
use pyharmonics_gpt.Loop.Mutation.Attempts.{
  abs_small, clip_ℤ, int_window, int_threshold, dict_per_key, Member, Random, Builtins, Attempt,
  apply_kind, apply_one_mutation,
}
use pyharmonics_gpt.Loop.Mutation.Clusters.{mutate_all_clusters, all_clusters}
use pyharmonics_gpt.Loop.Mutation.DefaultMap.{member, default_cluster_map}
use pyharmonics_gpt.Loop.Mutation.Acceptance.{
  IsGood, IsBuilt, GivesAccepted, Fits, MapFits, SamplesMembers, with_value-IsGood, rounded-IsGood,
  unless_raised-IsGood, clusters-GivesAccepted,
}

module _ {R F : Type 0} ⦃d : Float F⦄ (rng : Random R F) (round_int : F → ℤ) (py : Builtins F) where
  -- an attempt on a field with this value
  attempt-IsGood :
      (m : Member F) (t : TuningConstants F) (cur : Value F) (sigma : F) (r : R)
      → lookup m.name (fields t) ≡ some cur
      → IsGood py (apply_kind rng round_int py m.name m.kind t cur sigma r).0
      → IsGood py (apply_one_mutation rng round_int py m t sigma r).0
  unfolding apply_one_mutation
  attempt-IsGood m t cur sigma r e h =
      subst
        (λ (found : Option (Value F)).
          IsGood py
            (elim found as (λ _. Attempt F × R) [
              | none ↦ (Attempt.no_attribute m.name, r)
              | some cur ↦ apply_kind rng round_int py m.name m.kind t cur sigma r
            ]).0)
        (sym e) h

  abs_small-Fits :
      (name : String) (lo hi : F) (get : TuningConstants F → F)
      → ((t : TuningConstants F) → lookup name (fields t) ≡ some (float (get t)))
      → ((t : TuningConstants F) (x : F) → IsBuilt py (overlay t ((name, float x) ∷ [])))
      → Fits rng round_int py (member name (abs_small lo hi))
  unfolding apply_kind
  abs_small-Fits name lo hi get found over = record {
    valid = refl;
    good = λ t sigma r.
        attempt-IsGood (member name (abs_small lo hi)) t (float (get t)) sigma r (found t)
          (with_value-IsGood py rng round_int t name _ (over t _));
  }

  int_window-Fits :
      (name : String) (lo hi : ℤ) (get : TuningConstants F → ℤ)
      → ((t : TuningConstants F) → lookup name (fields t) ≡ some (int (get t)))
      → ((t : TuningConstants F) (x : ℤ) → IsBuilt py (overlay t ((name, int x) ∷ [])))
      → Fits rng round_int py (member name (int_window lo hi))
  unfolding apply_kind
  int_window-Fits name lo hi get found over = record {
    valid = refl;
    good = λ t sigma r.
        attempt-IsGood (member name (int_window lo hi)) t (int (get t)) sigma r (found t) (
          rounded-IsGood py rng round_int _ _
            (λ n. with_value-IsGood py rng round_int t name (int (clip_ℤ n lo hi)) (over t _)));
  }

  int_threshold-Fits :
      (name : String) (lo hi : ℤ) (get : TuningConstants F → ℤ)
      → ((t : TuningConstants F) → lookup name (fields t) ≡ some (int (get t)))
      → ((t : TuningConstants F) (x : ℤ) → IsBuilt py (overlay t ((name, int x) ∷ [])))
      → Fits rng round_int py (member name (int_threshold lo hi))
  unfolding apply_kind
  int_threshold-Fits name lo hi get found over = record {
    valid = refl;
    good = λ t sigma r.
        attempt-IsGood (member name (int_threshold lo hi)) t (int (get t)) sigma r (found t) (
          rounded-IsGood py rng round_int _ _
            (λ n. with_value-IsGood py rng round_int t name (int (clip_ℤ n lo hi)) (over t _)));
  }

  dict_per_key-Fits :
      (name : String) (per_key lo hi : Option F) (keys_bounds : Dict (F × F)) (target : Option ℤ)
      (get : TuningConstants F → Dict F)
      → ((t : TuningConstants F) → lookup name (fields t) ≡ some (floats (get t)))
      → ((t : TuningConstants F) (x : Dict F) → IsBuilt py (overlay t ((name, floats x) ∷ [])))
      → Fits rng round_int py (member name (dict_per_key per_key lo hi keys_bounds target))
  unfolding apply_kind
  dict_per_key-Fits name per_key lo hi keys_bounds target get found over = record {
    valid = refl;
    good = λ t sigma r.
        attempt-IsGood (member name (dict_per_key per_key lo hi keys_bounds target)) t
          (floats (get t)) sigma r (found t)
          (unless_raised-IsGood py rng round_int target _ _
            (with_value-IsGood py rng round_int t name _ (over t _)));
  }

  default_cluster_map-MapFits : MapFits rng round_int py default_cluster_map
  unfolding default_cluster_map fields overlay read lookup
  default_cluster_map-MapFits = (
    (
      abs_small-Fits "atr_prz_sweep" _ _ (λ t. t.atr_prz_sweep) (λ t. refl) (λ t x. tt),
      (
        abs_small-Fits "fee_rate" _ _ (λ t. t.fee_rate) (λ t. refl) (λ t x. tt),
        (
          abs_small-Fits "slippage_rate" _ _ (λ t. t.slippage_rate) (λ t. refl) (λ t x. tt),
          (
            dict_per_key-Fits "atr_stop_buffer" _ _ _ _ _ (λ t. t.atr_stop_buffer) (λ t. refl)
                (λ t x. tt),
            tt,
          ),
        ),
      ),
    ),
    (
      (
        int_threshold-Fits "max_d_age_bars" _ _ (λ t. t.max_d_age_bars) (λ t. refl) (λ t x. tt),
        (
          abs_small-Fits "max_prz_distance_atr" _ _ (λ t. t.max_prz_distance_atr) (λ t. refl)
              (λ t x. tt),
          (
            abs_small-Fits "max_forming_prz_width_atr" _ _ (λ t. t.max_forming_prz_width_atr)
                (λ t. refl) (λ t x. tt),
            (
              int_threshold-Fits "authenticity_halve" _ _ (λ t. t.authenticity_halve) (λ t. refl)
                  (λ t x. tt),
              (
                int_threshold-Fits "authenticity_veto" _ _ (λ t. t.authenticity_veto) (λ t. refl)
                    (λ t x. tt),
                (
                  abs_small-Fits "adverse_sharpe_threshold" _ _ (λ t. t.adverse_sharpe_threshold)
                      (λ t. refl) (λ t x. tt),
                  (
                    int_threshold-Fits "regime_moderate" _ _ (λ t. t.regime_moderate) (λ t. refl)
                        (λ t x. tt),
                    (
                      int_threshold-Fits "regime_high" _ _ (λ t. t.regime_high) (λ t. refl)
                          (λ t x. tt),
                      (
                        abs_small-Fits "target_atr_pct" _ _ (λ t. t.target_atr_pct) (λ t. refl)
                            (λ t x. tt),
                        (
                          int_threshold-Fits "default_ttl_bars" _ _ (λ t. t.default_ttl_bars)
                              (λ t. refl) (λ t x. tt),
                          tt,
                        ),
                      ),
                    ),
                  ),
                ),
              ),
            ),
          ),
        ),
      ),
      (
        (
          int_threshold-Fits "a_grade_min" _ _ (λ t. t.a_grade_min) (λ t. refl) (λ t x. tt),
          (
            int_threshold-Fits "a_grade_min_high_quant" _ _ (λ t. t.a_grade_min_high_quant)
                (λ t. refl) (λ t x. tt),
            (
              abs_small-Fits "high_quant_position_mult" _ _ (λ t. t.high_quant_position_mult)
                  (λ t. refl) (λ t x. tt),
              (
                dict_per_key-Fits "confluence_weights" _ _ _ _ _ (λ t. t.confluence_weights)
                    (λ t. refl) (λ t x. tt),
                (
                  dict_per_key-Fits "pattern_base_score" _ _ _ _ _ (λ t. t.pattern_base_score)
                      (λ t. refl) (λ t x. tt),
                  (
                    int_threshold-Fits "stability_window" _ _ (λ t. t.stability_window) (λ t. refl)
                        (λ t x. tt),
                    tt,
                  ),
                ),
              ),
            ),
          ),
        ),
        (
          (
            abs_small-Fits "slope_trend_up" _ _ (λ t. t.slope_trend_up) (λ t. refl) (λ t x. tt),
            (
              abs_small-Fits "slope_trend_down" _ _ (λ t. t.slope_trend_down) (λ t. refl)
                  (λ t x. tt),
              (
                abs_small-Fits "mult_trending_aligned" _ _ (λ t. t.mult_trending_aligned)
                    (λ t. refl) (λ t x. tt),
                (
                  abs_small-Fits "mult_ranging_aligned" _ _ (λ t. t.mult_ranging_aligned)
                      (λ t. refl) (λ t x. tt),
                  (
                    abs_small-Fits "mult_trending_inverse" _ _ (λ t. t.mult_trending_inverse)
                        (λ t. refl) (λ t x. tt),
                    (
                      abs_small-Fits "mult_ranging_inverse" _ _ (λ t. t.mult_ranging_inverse)
                          (λ t. refl) (λ t x. tt),
                      (
                        abs_small-Fits "mult_extreme_inverse" _ _ (λ t. t.mult_extreme_inverse)
                            (λ t. refl) (λ t x. tt),
                        (
                          abs_small-Fits "mult_data_short" _ _ (λ t. t.mult_data_short) (λ t. refl)
                              (λ t x. tt),
                          (
                            abs_small-Fits "extreme_deviation_pct" _ _
                                (λ t. t.extreme_deviation_pct) (λ t. refl) (λ t x. tt),
                            (
                              int_window-Fits "min_daily_bars" _ _ (λ t. t.min_daily_bars)
                                  (λ t. refl) (λ t x. tt),
                              tt,
                            ),
                          ),
                        ),
                      ),
                    ),
                  ),
                ),
              ),
            ),
          ),
          (
            (
              int_threshold-Fits "min_candles" _ _ (λ t. t.min_candles) (λ t. refl) (λ t x. tt),
              (
                int_window-Fits "atr_window" _ _ (λ t. t.atr_window) (λ t. refl) (λ t x. tt),
                (
                  int_window-Fits "atr_long_window" _ _ (λ t. t.atr_long_window) (λ t. refl)
                      (λ t x. tt),
                  (
                    int_window-Fits "rsi_window" _ _ (λ t. t.rsi_window) (λ t. refl) (λ t x. tt),
                    (
                      int_window-Fits "volume_ma_window" _ _ (λ t. t.volume_ma_window) (λ t. refl)
                          (λ t x. tt),
                      (
                        int_window-Fits "swing_lookback" _ _ (λ t. t.swing_lookback) (λ t. refl)
                            (λ t x. tt),
                        (
                          int_window-Fits "quant_trap_lookback" _ _ (λ t. t.quant_trap_lookback)
                              (λ t. refl) (λ t x. tt),
                          (
                            int_window-Fits "volume_authenticity_window" _ _
                                (λ t. t.volume_authenticity_window) (λ t. refl) (λ t x. tt),
                            (
                              int_window-Fits "quant_regime_window" _ _ (λ t. t.quant_regime_window)
                                  (λ t. refl) (λ t x. tt),
                              (
                                int_window-Fits "per_bar_sharpe_window" _ _
                                    (λ t. t.per_bar_sharpe_window) (λ t. refl) (λ t x. tt),
                                tt,
                              ),
                            ),
                          ),
                        ),
                      ),
                    ),
                  ),
                ),
              ),
            ),
            tt,
          ),
        ),
      ),
    ),
  )

  -- If the sampler picks among the members that it is given: whatever the draws, mutating accepted
  -- constants in each cluster of the default map gives constants that `__post_init__` accepts, unless
  -- an attempt takes `int(round(x))` of an infinite x, which raises an OverflowError that
  -- `mutate_field` does not catch; no other error ends it.
  pub mutate_all_clusters-GivesAccepted :
      (samples : SamplesMembers rng round_int py) (t : TuningConstants F) (sigma : F) (r : R)
      → post_init t ≡ none
      → GivesAccepted py (mutate_all_clusters rng round_int py default_cluster_map t sigma r)
  unfolding mutate_all_clusters
  mutate_all_clusters-GivesAccepted samples t sigma r h =
      clusters-GivesAccepted rng round_int py samples default_cluster_map
        (all_clusters rng round_int default_cluster_map) t sigma r default_cluster_map-MapFits h
