-- ===== src/Domain/Validation/Filtering.antt =====
-- What it means for a candidate to pass the filter.
use mathlib.Core.Logic.{◌↔◌}
use mathlib.Core.Option.{some-injective, none-ne-some}
use pyharmonics_gpt.Prelude.{
  ℕ, ◌≤◌, ◌⊎◌, inl, inr, ap, arith, ◌++◌, length, filter, ltb, ◌≡◌, Option-cases, ◌∙◌, refl, sym,
  subst, Bool, true, false, false≢true, Option, none, some, List, [], ◌∷◌, if◌then◌else◌,
}
use pyharmonics_gpt.Float.{Float, lt, le, gt, add, sub, mul, div, lit, nought, abs}
use pyharmonics_gpt.Domain.Signals.{
  Candidate, Tuning, prz_low, prz_high, compute_stop, compute_targets,
}
use pyharmonics_gpt.Domain.Validation.{
  Reason, stale_distance, stale_age, degenerate_prz, violated, completed, is_far, is_aged,
  is_degenerate, default_options, prz_mid, past_stop, past_target, completed_reason,
  rejection_reason, place, last_time, filter_candidates,
}

module _ {F : Type 0} ⦃d : Float F⦄ (round8 : F → F) (t : Tuning F) (price atr : F)
    (close_times : Option (List ℕ)) where
  -- The candidates are dealt out, in their order, to the valid ones, for which no reason is found,
  -- and the rejected ones, each with the reason found for it.
  pub data Split
      : List (Candidate F) → List (Candidate F) → List (Candidate F × Reason) → Type 0 where
    all_dealt : Split [] [] []
    valid_next :
        {c : Candidate F} {candidates valid : List (Candidate F)}
        {rejected : List (Candidate F × Reason)}
        → rejection_reason round8 t c price atr close_times ≡ some none
        → Split candidates valid rejected
        → Split (c ∷ candidates) (c ∷ valid) rejected
    rejected_next :
        {c : Candidate F} {reason : Reason} {candidates valid : List (Candidate F)}
        {rejected : List (Candidate F × Reason)}
        → rejection_reason round8 t c price atr close_times ≡ some (some reason)
        → Split candidates valid rejected
        → Split (c ∷ candidates) valid ((c, reason) ∷ rejected)

  abbrev pub IsSplit :
      List (Candidate F) → List (Candidate F) × List (Candidate F × Reason) → Type 0
  IsSplit candidates (valid, rejected) = Split candidates valid rejected

  place-Split :
      (c : Candidate F) (reason : Option Reason) (candidates : List (Candidate F))
      (split : List (Candidate F) × List (Candidate F × Reason))
      → rejection_reason round8 t c price atr close_times ≡ some reason
      → IsSplit candidates split
      → IsSplit (c ∷ candidates) (place c reason split)
  place-Split c none candidates split e h = valid_next e h
  place-Split c (some reason) candidates split e h = rejected_next e h

  filter-step :
      (c : Candidate F) (candidates : List (Candidate F)) (found : Option (Option Reason))
      (rest : Option (List (Candidate F) × List (Candidate F × Reason)))
      (result : List (Candidate F) × List (Candidate F × Reason))
      → rejection_reason round8 t c price atr close_times ≡ found
      → ((split : List (Candidate F) × List (Candidate F × Reason))
          → rest ≡ some split
          → IsSplit candidates split)
      → (elim found [
        | none ↦ none
        | some reason ↦ elim rest [ none ↦ none | some split ↦ some (place c reason split) ]
      ])
        ≡ some result
      → IsSplit (c ∷ candidates) result
  filter-step c candidates none rest result e h k = absurd (none-ne-some result k)
  filter-step c candidates (some reason) none result e h k = absurd (none-ne-some result k)
  filter-step c candidates (some reason) (some split) result e h k =
      subst (IsSplit (c ∷ candidates)) (some-injective (place c reason split) result k)
        (place-Split c reason candidates split e (h split refl))

  -- If no check raises an exception, the two lists that `filter_candidates` returns are the
  -- candidates dealt out in their order: to the valid ones exactly those for which no reason to reject
  -- is found, and to the rejected ones the others, each with its reason.
  pub filter_candidates-Split :
      (candidates : List (Candidate F)) (result : List (Candidate F) × List (Candidate F × Reason))
      → filter_candidates round8 t candidates price atr close_times ≡ some result
      → IsSplit candidates result
  unfolding filter_candidates
  filter_candidates-Split [] result e =
      subst (IsSplit []) (some-injective ([], []) result e) all_dealt
  filter_candidates-Split (c ∷ candidates) result e =
      filter-step c candidates (rejection_reason round8 t c price atr close_times) _ result refl
        (λ split h. filter_candidates-Split candidates split h) e

  abbrev pub middle : Candidate F → F
  middle c = div (add (prz_low c) (prz_high c)) (lit 2 0)

  -- No times are known, or at most so many of the candles close after the last of the candidate's times.
  abbrev pub IsYoung : Candidate F → Type 0
  IsYoung c =
      (close_times ≡ none)
      ⊎ (c.times ≡ [])
      ⊎ ((closes : List ℕ) × (earlier : List ℕ) × (d_time : ℕ) × (close_times ≡ some closes)
          × (c.times ≡ earlier ++ d_time ∷ [])
          × (length (filter (λ close. ltb d_time close) closes) ≤ t.max_d_age_bars))

  -- the zone of a forming candidate has a width, and not too large a one
  abbrev pub IsSoundZone : Candidate F → Type 0
  IsSoundZone c =
      (c.formed ≡ true)
      ⊎ ((le (sub (prz_high c) (prz_low c)) nought ≡ false)
          × (lt (mul t.max_forming_prz_width_atr atr) (sub (prz_high c) (prz_low c)) ≡ false))

  -- the candidate can still be traded
  pub record Open (c : Candidate F) : Type 0 where
    pub near : lt (mul t.max_prz_distance_atr atr) (abs (sub price (middle c))) ≡ false
    pub young : IsYoung c
    pub sound : IsSoundZone c
    pub stop : F × F
    pub stop_computed : compute_stop round8 t c atr default_options ≡ some stop
    pub not_stopped : (if c.bullish then lt price (stop.0) else lt (stop.0) price) ≡ false
    pub targets : F × F × F
    pub targets_computed : compute_targets round8 t c (middle c) ≡ some targets
    pub not_reached : (if c.bullish then lt (targets.1) price else lt price (targets.1)) ≡ false

  not_completed :
      (c : Candidate F) (found : Option (F × F × F))
      → (elim found [
        | none ↦ none
        | some targets ↦
            if past_target c.bullish price (targets.1) then some (some completed) else some none
      ])
        ≡ some none
      → (targets : F × F × F) × (found ≡ some targets)
        × (past_target c.bullish price (targets.1) ≡ false)
  not_completed c none e = absurd (none-ne-some none e)
  not_completed c (some targets) e = (targets, refl, go (past_target c.bullish price (targets.1)) e)
    where
      go : (b : Bool) → (if b then some (some completed) else some none) ≡ some none → b ≡ false
      go true k = absurd (none-ne-some completed (sym (some-injective (some completed) none k)))
      go false k = refl

  reason-absurd :
      {A : Type 0} (reason : Reason)
      → Path (Option (Option Reason)) (some (some reason)) (some none)
      → A
  reason-absurd reason e = absurd (none-ne-some reason (sym (some-injective (some reason) none e)))

  not_violated :
      (c : Candidate F) (found : Option (F × F)) (last_check : Option (Option Reason))
      → (elim found [
        | none ↦ none
        | some result ↦
            if past_stop c.bullish price (result.0) then some (some violated) else last_check
      ])
        ≡ some none
      → ((stop : F × F) × (found ≡ some stop) × (past_stop c.bullish price (stop.0) ≡ false))
        × (last_check ≡ some none)
  not_violated c none last_check e = absurd (none-ne-some none e)
  not_violated c (some stop) last_check e = go (past_stop c.bullish price (stop.0)) refl e
    where
      go :
          (b : Bool)
          → past_stop c.bullish price (stop.0) ≡ b
          → (if b then some (some violated) else last_check) ≡ some none
          → ((s : F × F) × (some stop ≡ some s) × (past_stop c.bullish price (s.0) ≡ false))
            × (last_check ≡ some none)
      go true h k = reason-absurd violated k
      go false h k = ((stop, refl, h), k)

  passes :
      (reason : Reason) (b : Bool) (rest : Option (Option Reason))
      → (if b then some (some reason) else rest) ≡ some none
      → (b ≡ false) × (rest ≡ some none)
  passes reason true rest e = reason-absurd reason e
  passes reason false rest e = (refl, e)

  taken :
      (b : Bool) (x y : Option (Option Reason))
      → b ≡ true
      → (if b then x else y) ≡ some none
      → x ≡ some none
  taken true x y h e = e
  taken false x y h e = absurd (false≢true h)

  last_time-none : (times : List ℕ) → last_time times ≡ none → times ≡ []
  last_time-none [] e = refl
  last_time-none (u ∷ []) e = absurd (none-ne-some u (sym e))
  last_time-none (u ∷ v ∷ times) e = absurd (cons-ne-nil (last_time-none (v ∷ times) e))
    where
      cons-ne-nil : {x : ℕ} {xs : List ℕ} → (x ∷ xs) ≡ [] → ⊥
      cons-ne-nil h = cc

  last_time-snoc :
      (times : List ℕ) (d_time : ℕ)
      → last_time times ≡ some d_time
      → (earlier : List ℕ) × (times ≡ earlier ++ d_time ∷ [])
  last_time-snoc [] d_time e = absurd (none-ne-some d_time e)
  last_time-snoc (u ∷ []) d_time e = ([], ap (λ x. x ∷ []) (some-injective u d_time e))
  last_time-snoc (u ∷ v ∷ times) d_time e =
      let (earlier, same) = last_time-snoc (v ∷ times) d_time e in
      (u ∷ earlier, ap (λ l. u ∷ l) same)

  snoc-last_time :
      (earlier : List ℕ) (d_time : ℕ) → last_time (earlier ++ d_time ∷ []) ≡ some d_time
  snoc-last_time [] d_time = refl
  snoc-last_time (u ∷ []) d_time = refl
  snoc-last_time (u ∷ v ∷ earlier) d_time = snoc-last_time (v ∷ earlier) d_time

  is_aged-IsYoung :
      (c : Candidate F) → is_aged t.max_d_age_bars close_times c.times ≡ false → IsYoung c
  is_aged-IsYoung c h = elim (Option-cases close_times) [
    | inl e ↦ inl e
    | inr (closes, e) ↦ elim (Option-cases (last_time c.times)) [
      | inl none_there ↦ inr (inl (last_time-none c.times none_there))
      | inr (d_time, there) ↦
          let (earlier, same) = last_time-snoc c.times d_time there in
          let few : length (filter (λ close. ltb d_time close) closes) ≤ t.max_d_age_bars =
            unfold is_aged in ground (arith, h, e, there) in
          inr (inr (closes, earlier, d_time, e, same, few))
    ]
  ]

  IsYoung-is_aged :
      (c : Candidate F) → IsYoung c → is_aged t.max_d_age_bars close_times c.times ≡ false
  unfolding is_aged
  IsYoung-is_aged c (inl e) = ground (arith, e)
  IsYoung-is_aged c (inr (inl e)) = ground (arith, ap last_time e)
  IsYoung-is_aged c (inr (inr (closes, earlier, d_time, e, same, few))) =
      ground (arith, e, ap last_time same ∙ snoc-last_time earlier d_time, few)

  is_degenerate-IsSoundZone :
      (c : Candidate F) → gt atr nought ≡ true → is_degenerate t c atr ≡ false → IsSoundZone c
  unfolding is_degenerate
  is_degenerate-IsSoundZone c positive h = ground (arith, h, positive)

  IsSoundZone-is_degenerate : (c : Candidate F) → IsSoundZone c → is_degenerate t c atr ≡ false
  unfolding is_degenerate
  IsSoundZone-is_degenerate c (inl h) = ground (arith, h)
  IsSoundZone-is_degenerate c (inr (h, k)) = ground (arith, h, k)

  all_pass :
      (far aged degenerate positive : Bool) (x y : Option (Option Reason))
      → far ≡ false
      → aged ≡ false
      → degenerate ≡ false
      → positive ≡ true
      → x ≡ some none
      → (if far
          then some (some stale_distance)
          else if aged
          then some (some stale_age)
          else if degenerate
          then some (some degenerate_prz)
          else if positive
          then x
          else y)
        ≡ some none
  all_pass far aged degenerate positive x y f a w p e = rw (f, a, w, p, e) refl

  not_reached-passes :
      (c : Candidate F) (found : Option (F × F × F)) (targets : F × F × F)
      → found ≡ some targets
      → past_target c.bullish price (targets.1) ≡ false
      → (elim found [
        | none ↦ none
        | some targets ↦
            if past_target c.bullish price (targets.1) then some (some completed) else some none
      ])
        ≡ some none
  not_reached-passes c found targets e h = rw e (rw h refl)

  not_stopped-passes :
      (c : Candidate F) (found : Option (F × F)) (stop : F × F)
      (last_check : Option (Option Reason))
      → found ≡ some stop
      → past_stop c.bullish price (stop.0) ≡ false
      → last_check ≡ some none
      → (elim found [
        | none ↦ none
        | some result ↦
            if past_stop c.bullish price (result.0) then some (some violated) else last_check
      ])
        ≡ some none
  not_stopped-passes c found stop last_check e h k = rw e (rw h k)

  -- With a positive ATR, no reason is found to reject a candidate exactly if it can still be traded: its
  -- zone is not too far from the price, at most so many candles have closed since its last point, the
  -- zone of a forming one has a width and not too large a one, and the price has not passed its stop, nor
  -- its second target measured from the middle of the zone.
  pub valid-Open :
      (c : Candidate F)
      → gt atr nought ≡ true
      → (rejection_reason round8 t c price atr close_times ≡ some none) ↔ Open c
  unfolding rejection_reason completed_reason is_far
  valid-Open c positive = (
    λ e.
        let near = passes stale_distance (is_far t c price atr) _ e in
        let young = passes stale_age (is_aged t.max_d_age_bars close_times c.times) _ (near.1) in
        let wide = passes degenerate_prz (is_degenerate t c atr) _ (young.1) in
        let (held, rest) =
          not_violated c (compute_stop round8 t c atr default_options)
            (completed_reason round8 t c price) (taken _ _ _ positive (wide.1)) in
        let running = not_completed c (compute_targets round8 t c (prz_mid c)) rest in
        record {
          near = ground (arith, near.0, positive);
          young = is_aged-IsYoung c (young.0);
          sound = is_degenerate-IsSoundZone c positive (wide.0);
          stop = held.0;
          stop_computed = held.1;
          not_stopped = ground (arith, held.2);
          targets = running.0;
          targets_computed = running.1;
          not_reached = ground (arith, running.2);
        },
    λ h.
        let far : is_far t c price atr ≡ false = ground (arith, h.near) in
        let aged = IsYoung-is_aged c h.young in
        let degenerate = IsSoundZone-is_degenerate c h.sound in
        let stopped : past_stop c.bullish price (h.stop.0) ≡ false =
          ground (arith, h.not_stopped) in
        let reached : past_target c.bullish price (h.targets.1) ≡ false =
          ground (arith, h.not_reached) in
        all_pass (is_far t c price atr) (is_aged t.max_d_age_bars close_times c.times)
          (is_degenerate t c atr) (gt atr nought) _ (completed_reason round8 t c price) far aged
          degenerate positive
          (not_stopped-passes c (compute_stop round8 t c atr default_options) h.stop
            (completed_reason round8 t c price) h.stop_computed stopped
            (not_reached-passes c (compute_targets round8 t c (prz_mid c)) h.targets
              h.targets_computed reached)),
  )
