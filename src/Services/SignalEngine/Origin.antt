-- ===== src/Services/SignalEngine/Origin.antt =====
-- Where the signal of `build_signal` comes from.
use pyharmonics_gpt.Prelude.{ℕ, drop, ◌≡◌, true, false, ◌⊎◌, IsIn, Option, none, some, List, String}
use pyharmonics_gpt.Float.{Float}
use pyharmonics_gpt.Domain.Signals.{Candidate}
use pyharmonics_gpt.Domain.Validation.{
  Reason, stability_verdict, rejection_reason, filter_candidates,
}
use pyharmonics_gpt.Domain.Validation.Frames.{Bar}
use pyharmonics_gpt.Services.SignalEngine.Confluence.{Divergence}
use pyharmonics_gpt.Services.SignalEngine.Context.{ScoreContext, Signal}
use pyharmonics_gpt.Services.SignalEngine.Verdict.{Verdict, kept}
use pyharmonics_gpt.Services.SignalEngine.Scoring.{score_candidate}
use pyharmonics_gpt.Services.SignalEngine.Ranking.{
  Frame, EngineSettings, names_of, without_last, is_rechecked, prepare_score_context, score_all,
}
use pyharmonics_gpt.Services.SignalEngine.Best.{IsBest}

module _ {F : Type 0} where
  -- What the check on the two shorter frames makes of the best signal: it is the same, where there is
  -- no detector or the grade is not A or B; else the pattern is not suspect, and the score is added.
  abbrev pub IsStable :
      ℕ
      → List (Bar F)
      → Option (List (Bar F) → Option (Option String))
      → Signal F
      → Signal F
      → Type 0
  IsStable window rows none best signal = best ≡ signal
  IsStable window rows (some detector) best signal =
      let (sub1, sub2) =
        names_of (detector (without_last window rows)) (detector (drop window rows)) in
      ((is_rechecked best ≡ false) × (best ≡ signal))
      ⊎ ((is_rechecked best ≡ true)
          × ((stability_verdict (some best.pattern_name) sub1 sub2).1 ≡ false)
          × (record best {
            stability_score = some (stability_verdict (some best.pattern_name) sub1 sub2).0;
          }
              ≡ signal))

module _ {F : Type 0} ⦃d : Float F⦄ where
  -- the candidate, the context and the best of the scored signals that a signal comes from
  pub record Origin (e : EngineSettings F) (f : Frame F) (candidates : List (Candidate F))
      (rsi_divs macd_divs : List Divergence)
      (detector : Option (List (Bar F) → Option (Option String))) (level : String)
      (stop_buffer_atr : Option F) (signal : Signal F) : Type 0 where
    pub ctx : ScoreContext F
    pub valid : List (Candidate F)
    pub refused : List (Candidate F × Reason)
    pub scored : List (Signal F)
    pub c : Candidate F
    pub best : Signal F
    pub prepared : prepare_score_context e f rsi_divs macd_divs stop_buffer_atr ≡ some ctx
    pub filtered :
        filter_candidates e.scoring.round8 e.scoring.tuning candidates ctx.price ctx.readings.atr
          f.close_times
        ≡ some (valid, refused)
    pub is_valid : IsIn c valid
    pub offered : IsIn c candidates
    pub fresh :
        rejection_reason e.scoring.round8 e.scoring.tuning c ctx.price ctx.readings.atr
          f.close_times
        ≡ some none
    pub all_scored : score_all e.scoring ctx level valid ≡ kept scored
    pub is_best : IsBest scored best
    pub scored_from : score_candidate e.scoring ctx c level ≡ kept best
    pub is_stable : IsStable e.scoring.stability_window f.rows detector best signal
