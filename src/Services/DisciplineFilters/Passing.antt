-- ===== src/Services/DisciplineFilters/Passing.antt =====
-- What a candidate that passes the discipline filters has behind it.
use mathlib.Core.Option.{some-injective, none-ne-some}
use pyharmonics_gpt.Prelude.{
  ℕ, ◌≡◌, refl, sym, ◌∙◌, ap, ◌⊎◌, inl, inr, any-ext, Bool, true, false, not, ◌&&◌, arith, Option,
  none, some, List, any, length, ltb, if◌then◌else◌,
}
use pyharmonics_gpt.Float.{Float, lt, le, gt, ge, add, div, lit, nought}
use pyharmonics_gpt.Domain.Signals.{Candidate, Tuning, prz_low, prz_high, compute_targets}
use pyharmonics_gpt.Services.DisciplineFilters.{
  Bar, DisciplineResult, prz_mid, bars_since, c_position, or_default, prz_was_touched, past_tp2,
  liquidity_sweep, dist_pct, inputs_ok, bars_after, evaluate,
}

module _ {F : Type 0} ⦃d : Float F⦄ where
  -- the bar reaches into the zone
  abbrev pub touches : F → F → Bar F → Bool
  touches low high bar = ge bar.high low && le bar.low high

  any_touch :
      (p : Bar F → Bool) (low high : F) (bars : List (Bar F))
      → ((bar : Bar F) → p bar ≡ touches low high bar)
      → any p bars ≡ any (touches low high) bars
  any_touch p low high bars h = any-ext p (touches low high) bars h

  touched :
      (after : List (Bar F)) (low high : F) (bullish : Bool)
      → prz_was_touched after low high bullish ≡ any (touches low high) after
  unfolding prz_was_touched
  touched after low high true = refl
  touched after low high false = any_touch _ low high after (λ bar. ground arith)

  module _ (round8 : F → F) (mean : List F → F) (t : Tuning F) (bars : List (Bar F))
      (c : Candidate F) (price : F) where
    abbrev after_c : Option ℕ → List (Bar F)
    after_c c_idx = bars_after (c_position c_idx c.indices c.times) bars

    -- the result, by the second target
    abbrev decided : Option ℕ → Option ℕ → Bool → DisciplineResult F
    decided max_ttl c_idx past =
        let since = bars_since (c_position c_idx c.indices c.times) (length bars) in
        let breached = prz_was_touched (after_c c_idx) (prz_low c) (prz_high c) c.bullish in
        record {
          passed = not breached && not past;
          metrics = record {
            bars_since_c = since;
            stale = ltb (or_default max_ttl t.default_ttl_bars) since;
            breached_stop = breached;
            past_tp2 = past;
            in_prz = le (prz_low c) price && le price (prz_high c);
            dist_pct = dist_pct price c c.bullish;
            liquidity_sweep = liquidity_sweep mean bars c;
          };
        }

    decided-if :
        (max_ttl c_idx : Option ℕ) (broken : Bool) (past : Option Bool)
        (result : DisciplineResult F)
        → (if broken
            then none
            else elim past [ none ↦ none | some p ↦ some (decided max_ttl c_idx p) ])
          ≡ some result
        → (p : Bool) × (past ≡ some p) × (decided max_ttl c_idx p ≡ result)
    decided-if max_ttl c_idx true past result e = absurd (none-ne-some result e)
    decided-if max_ttl c_idx false none result e = absurd (none-ne-some result e)
    decided-if max_ttl c_idx false (some p) result e = (p, refl, some-injective _ result e)

    evaluate-decided :
        (max_ttl c_idx : Option ℕ) (result : DisciplineResult F)
        → evaluate round8 mean t bars c price max_ttl c_idx ≡ some result
        → (p : Bool) × (past_tp2 round8 t price c c.bullish ≡ some p)
          × (decided max_ttl c_idx p ≡ result)
    unfolding evaluate
    evaluate-decided max_ttl c_idx result e =
        decided-if max_ttl c_idx (not (inputs_ok bars c price))
          (past_tp2 round8 t price c c.bullish) result e

    -- The price is beyond the second target that is measured from the middle of the zone.
    abbrev pub IsBeyond : Bool → Type 0
    IsBeyond past =
        let mid = div (add (prz_low c) (prz_high c)) (lit 2 0) in
        ((le mid nought ≡ true) × (past ≡ false))
        ⊎ ((targets : F × F × F) × (compute_targets round8 t c mid ≡ some targets)
            × (past ≡ (if c.bullish then lt (targets.1) price else lt price (targets.1))))

    IsBeyond-cases :
        (past small : Bool) (found : Option (F × F × F))
        → le (prz_mid c) nought ≡ small
        → compute_targets round8 t c (prz_mid c) ≡ found
        → (if small then some false else elim found [
          | none ↦ none
          | some targets ↦ some (if c.bullish then gt price (targets.1) else lt price (targets.1))
        ])
          ≡ some past
        → IsBeyond past
    IsBeyond-cases past true found h k e = inl (h, sym (some-injective false past e))
    IsBeyond-cases past false none h k e = absurd (none-ne-some past e)
    IsBeyond-cases past false (some targets) h k e = inr (targets, k, sym (some-injective _ past e))

    past_tp2-IsBeyond :
        (past : Bool) → past_tp2 round8 t price c c.bullish ≡ some past → IsBeyond past
    unfolding past_tp2
    past_tp2-IsBeyond past e =
        IsBeyond-cases past (le (prz_mid c) nought) (compute_targets round8 t c (prz_mid c)) refl
          refl e

    -- A candidate passes exactly if no bar after its point C reaches into the zone and the price is not
    -- beyond the second target, which is measured from the middle of the zone and left out if that is
    -- not positive. That more bars have passed since C than the limit allows is reported, and does not
    -- change the verdict.
    pub evaluate-passed :
        (max_ttl c_idx : Option ℕ) (result : DisciplineResult F)
        → evaluate round8 mean t bars c price max_ttl c_idx ≡ some result
        → (past : Bool) × IsBeyond past
          × (result.passed
              ≡ (not (any (touches (prz_low c) (prz_high c)) (after_c c_idx)) && not past))
          × (result.metrics.stale
              ≡ ltb
                  (or_default max_ttl t.default_ttl_bars)
                  (bars_since (c_position c_idx c.indices c.times) (length bars)))
    evaluate-passed max_ttl c_idx result e =
        let (p, past, same) = evaluate-decided max_ttl c_idx result e in
        let bars_touch = touched (after_c c_idx) (prz_low c) (prz_high c) c.bullish in
        (
          p,
          past_tp2-IsBeyond p past,
          sym (ap (λ r. r.passed) same) ∙ ap (λ b. not b && not p) bars_touch,
          sym (ap (λ r. r.metrics.stale) same),
        )

    -- Any two limits on the age give the same verdict.
    pub evaluate-ttl :
        (ttl ttl2 c_idx : Option ℕ) (result result2 : DisciplineResult F)
        → evaluate round8 mean t bars c price ttl c_idx ≡ some result
        → evaluate round8 mean t bars c price ttl2 c_idx ≡ some result2
        → result.passed ≡ result2.passed
    evaluate-ttl ttl ttl2 c_idx result result2 e e2 =
        let (p, past, same) = evaluate-decided ttl c_idx result e in
        let (p2, past2, same2) = evaluate-decided ttl2 c_idx result2 e2 in
        let equal : p ≡ p2 = some-injective p p2 (sym past ∙ past2) in
        ap (λ r. r.passed) (sym same)
        ∙ ap (λ q. (decided ttl c_idx q).passed) equal
        ∙ ap (λ r. r.passed) same2
