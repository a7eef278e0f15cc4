-- ===== src/Loop/Mutation/DefaultMap.antt =====
-- DEFAULT_CLUSTER_MAP of app/loop/mutation.py.
use pyharmonics_gpt.Prelude.{none, some, List, [], ◌∷◌, String, pos}
use pyharmonics_gpt.Float.{Float, lit, neg}
use pyharmonics_gpt.Dict.{Dict}
use pyharmonics_gpt.Loop.Mutation.Attempts.{
  Kind, abs_small, int_window, int_threshold, dict_per_key, Member,
}

module _ {F : Type 0} ⦃d : Float F⦄ where
  abbrev pub member : String → Kind F → Member F
  member name kind = record { name = name; kind = kind; max_retries = none }

  unfoldable pub default_cluster_map : Dict (List (Member F))
  default_cluster_map =
      (
        "C1 Geometry",
        member "atr_prz_sweep" (abs_small (lit 5 2) (lit 1 0))
            ∷ member "fee_rate" (abs_small (lit 2 4) (lit 5 3))
            ∷ member "slippage_rate" (abs_small (lit 1 4) (lit 5 3))
            ∷ member "atr_stop_buffer" (
                dict_per_key (some (lit 2 1)) none none
                  (("conservative", (lit 5 1, lit 2 0))
                    ∷ ("standard", (lit 2 1, lit 5 1))
                    ∷ ("aggressive", (lit 1 1, lit 4 1))
                    ∷ [])
                  (none))
            ∷ [],
      )
      ∷ (
        "C2 Discipline",
        member "max_d_age_bars" (int_threshold (pos 5) (pos 60))
            ∷ member "max_prz_distance_atr" (abs_small (lit 1 0) (lit 6 0))
            ∷ member "max_forming_prz_width_atr" (abs_small (lit 3 1) (lit 3 0))
            ∷ member "authenticity_halve" (int_threshold (pos 30) (pos 70))
            ∷ member "authenticity_veto" (int_threshold (pos 10) (pos 40))
            ∷ member "adverse_sharpe_threshold" (abs_small (lit 5 1) (lit 25 1))
            ∷ member "regime_moderate" (int_threshold (pos 20) (pos 50))
            ∷ member "regime_high" (int_threshold (pos 40) (pos 80))
            ∷ member "target_atr_pct" (abs_small (lit 1 0) (lit 5 0))
            ∷ member "default_ttl_bars" (int_threshold (pos 20) (pos 80))
            ∷ [],
      )
      ∷ (
        "C3 Confluence",
        member "a_grade_min" (int_threshold (pos 50) (pos 90))
            ∷ member "a_grade_min_high_quant" (int_threshold (pos 60) (pos 95))
            ∷ member "high_quant_position_mult" (abs_small (lit 3 1) (lit 1 0))
            ∷ member "confluence_weights"
                (dict_per_key (some (lit 5 0)) none none ([]) (some (pos 100)))
            ∷ member "pattern_base_score" (dict_per_key (some (lit 2 0)) none none ([]) (none))
            ∷ member "stability_window" (int_threshold (pos 3) (pos 15))
            ∷ [],
      )
      ∷ (
        "C4 Macro",
        member "slope_trend_up" (abs_small (lit 2 1) (lit 1 0))
            ∷ member "slope_trend_down" (abs_small (neg (lit 1 0)) (neg (lit 2 1)))
            ∷ member "mult_trending_aligned" (abs_small (lit 8 1) (lit 15 1))
            ∷ member "mult_ranging_aligned" (abs_small (lit 8 1) (lit 15 1))
            ∷ member "mult_trending_inverse" (abs_small (lit 3 1) (lit 9 1))
            ∷ member "mult_ranging_inverse" (abs_small (lit 2 1) (lit 9 1))
            ∷ member "mult_extreme_inverse" (abs_small (lit 9 1) (lit 15 1))
            ∷ member "mult_data_short" (abs_small (lit 5 1) (lit 1 0))
            ∷ member "extreme_deviation_pct" (abs_small (lit 10 0) (lit 40 0))
            ∷ member "min_daily_bars" (int_window (pos 100) (pos 400))
            ∷ [],
      )
      ∷ (
        "C5 Windows",
        member "min_candles" (int_threshold (pos 30) (pos 200))
            ∷ member "atr_window" (int_window (pos 5) (pos 50))
            ∷ member "atr_long_window" (int_window (pos 50) (pos 200))
            ∷ member "rsi_window" (int_window (pos 5) (pos 30))
            ∷ member "volume_ma_window" (int_window (pos 5) (pos 50))
            ∷ member "swing_lookback" (int_window (pos 20) (pos 120))
            ∷ member "quant_trap_lookback" (int_window (pos 20) (pos 120))
            ∷ member "volume_authenticity_window" (int_window (pos 20) (pos 120))
            ∷ member "quant_regime_window" (int_window (pos 50) (pos 200))
            ∷ member "per_bar_sharpe_window" (int_window (pos 5) (pos 50))
            ∷ [],
      )
      ∷ []
