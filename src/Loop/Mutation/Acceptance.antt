-- ===== src/Loop/Mutation/Acceptance.antt =====
-- Every mutation of accepted constants gives accepted constants.
use pyharmonics_gpt.Prelude.{
  IsIn, ℕ, zero, suc, ◌+◌, ◌≡◌, refl, sym, subst, inl, inr, ℤ, str_eq, ◌&&◌, Bool, true, false,
  Option, none, some, List, [], ◌∷◌, String, if◌then◌else◌,
}
use pyharmonics_gpt.Float.{Float, le, mul, div, nought}
use pyharmonics_gpt.Dict.{Dict, lookup}
use pyharmonics_gpt.Config.Tuning.{TuningConstants, TuningError, post_init, sum_values}
use pyharmonics_gpt.Config.Tuning.Fields.{
  Value, Built, built, refused, ill_typed, verdict, checked, ◌>>=◌, overlay, replace,
}
use pyharmonics_gpt.Loop.Mutation.Attempts.{
  Member, Random, Builtins, rounded, all_rounded, unless_raised, Attempt, made, unchanged, failed,
  Outcome, ok, ◌>>=◌ as ◌>>=ₒ◌, with_value, of_int, attempt_of, apply_one_mutation,
}
use pyharmonics_gpt.Loop.Mutation.Clusters.{
  attempts, mutate_field, mutate_each, mutate_cluster, mutate_clusters, members_of, mutation_count,
  invalid_kind, retries,
}

module _ {F : Type 0} ⦃d : Float F⦄ (py : Builtins F) where
  -- accepted constants, the old ones, a rejected attempt, or the rounding of an infinite number: no other
  -- error
  abbrev pub IsGood : Attempt F → Type 0
  IsGood (made t) = post_init t ≡ none
  IsGood unchanged = Unit
  IsGood failed = Unit
  IsGood Attempt.index_error = ⊥
  IsGood (Attempt.overflow x) = py.is_infinite x ≡ true
  IsGood (Attempt.no_attribute n) = ⊥
  IsGood (Attempt.outside n) = ⊥

  abbrev pub IsBuilt : Built (TuningConstants F) → Type 0
  IsBuilt (built t) = Unit
  IsBuilt (refused e) = ⊥
  IsBuilt (ill_typed n) = ⊥

  -- accepted constants, with a state of the generator, or the rounding of an infinite number
  abbrev pub GivesAccepted : {R : Type 0} → Outcome F (TuningConstants F × R) → Type 0
  GivesAccepted (ok (t, r)) = post_init t ≡ none
  GivesAccepted Outcome.index_error = ⊥
  GivesAccepted (Outcome.overflow x) = py.is_infinite x ≡ true
  GivesAccepted (Outcome.unknown_kind k) = ⊥
  GivesAccepted (Outcome.no_attribute n) = ⊥
  GivesAccepted (Outcome.outside n) = ⊥

  verdict-IsGood :
      (t : TuningConstants F) (v : Option TuningError)
      → post_init t ≡ v
      → IsGood (attempt_of (verdict t v))
  verdict-IsGood t none h = h
  verdict-IsGood t (some e) h = tt

  pub with_value-IsGood :
      {R : Type 0} (rng : Random R F) (round_int : F → ℤ) (t : TuningConstants F) (name : String)
      (v : Value F)
      → IsBuilt (overlay t ((name, v) ∷ []))
      → IsGood (with_value rng round_int t name v)
  unfolding with_value replace checked
  with_value-IsGood rng round_int t name v h = by_result (overlay t ((name, v) ∷ [])) h
    where
      by_result : (b : Built (TuningConstants F)) → IsBuilt b → IsGood (attempt_of (b >>= checked))
      by_result (built t) h = verdict-IsGood t (post_init t) refl
      by_result (refused e) h = elim h [ ]
      by_result (ill_typed n) h = elim h [ ]

  pub rounded-IsGood :
      {R : Type 0} (rng : Random R F) (round_int : F → ℤ) (x : F) (then_do : ℤ → Attempt F)
      → ((n : ℤ) → IsGood (then_do n))
      → IsGood (rounded rng round_int py x then_do)
  unfolding rounded
  rounded-IsGood rng round_int x then_do h = by_test (py.is_infinite x) (le x x) refl
    where
      by_test :
          (b c : Bool)
          → py.is_infinite x ≡ b
          → IsGood (if b then Attempt.overflow x else if c then then_do (round_int x) else failed)
      by_test true c e = e
      by_test false true e = h (round_int x)
      by_test false false e = tt

  all_rounded-IsGood :
      {R : Type 0} (rng : Random R F) (round_int : F → ℤ) (scale : F) (m : Dict F)
      (attempt : Attempt F)
      → IsGood attempt
      → IsGood (all_rounded rng round_int py scale m attempt)
  unfolding all_rounded
  all_rounded-IsGood rng round_int scale [] attempt h = h
  all_rounded-IsGood rng round_int scale ((k, v) ∷ m) attempt h =
      let rest = all_rounded-IsGood rng round_int scale m attempt h in
      rounded-IsGood rng round_int (mul v scale) (λ n. all_rounded rng round_int py scale m attempt)
        (λ n. rest)

  pub unless_raised-IsGood :
      {R : Type 0} (rng : Random R F) (round_int : F → ℤ) (target : Option ℤ) (m : Dict F)
      (attempt : Attempt F)
      → IsGood attempt
      → IsGood (unless_raised rng round_int py target m attempt)
  unfolding unless_raised sum_values
  unless_raised-IsGood rng round_int none m attempt h = h
  unless_raised-IsGood rng round_int (some target) m attempt h =
      by_sum (le (sum_values nought m) nought && le nought (sum_values nought m))
    where
      scaled : Attempt F
      scaled =
          all_rounded rng round_int py (div (of_int rng round_int target) (sum_values nought m)) m
            attempt

      by_sum : (b : Bool) → IsGood (if b then attempt else scaled)
      by_sum true = h
      by_sum false =
          all_rounded-IsGood rng round_int (div (of_int rng round_int target) (sum_values nought m))
            m attempt h

abbrev pub AreIn : {A : Type 0} → List A → List A → Type 0
AreIn [] ys = Unit
AreIn (x ∷ xs) ys = IsIn x ys × AreIn xs ys

module _ {R F : Type 0} ⦃d : Float F⦄ (rng : Random R F) (round_int : F → ℤ) (py : Builtins F) where
  -- an attempt on this member never ends by another error than that of `__post_init__`
  pub record Fits (m : Member F) : Type 0 where
    pub valid : invalid_kind rng round_int m.kind ≡ none
    pub good :
        (t : TuningConstants F) (sigma : F) (r : R)
        → IsGood py (apply_one_mutation rng round_int py m t sigma r).0

  abbrev pub AllFit : List (Member F) → Type 0
  AllFit [] = Unit
  AllFit (m ∷ ms) = Fits m × AllFit ms

  abbrev pub MapFits : Dict (List (Member F)) → Type 0
  MapFits [] = Unit
  MapFits ((cluster, ms) ∷ cm) = AllFit ms × MapFits cm

  -- `rng.sample` picks among the members
  abbrev pub SamplesMembers : Type 0
  SamplesMembers = (ms : List (Member F)) (n : ℕ) (r : R) → AreIn (rng.sample ms n r).0 ms

  fit_of : (m : Member F) (ms : List (Member F)) → IsIn m ms → AllFit ms → Fits m
  fit_of m [] h fit = elim h [ ]
  fit_of m (x ∷ ms) (inl e) (fit, fits) = subst Fits (sym e) fit
  fit_of m (x ∷ ms) (inr h) (fit, fits) = fit_of m ms h fits

  fits_of : (xs ms : List (Member F)) → AreIn xs ms → AllFit ms → AllFit xs
  fits_of [] ms h fits = tt
  fits_of (x ∷ xs) ms (h, hs) fits = (fit_of x ms h fits, fits_of xs ms hs fits)

  after :
      (n : ℕ) (m : Member F) (t : TuningConstants F) (sigma : F) (attempt : Attempt F) (r : R)
      → post_init t ≡ none
      → IsGood py attempt
      → GivesAccepted py (attempts rng round_int py n m t sigma r)
      → GivesAccepted py (elim attempt as (λ _. Outcome F (TuningConstants F × R)) [
        | made t' ↦ ok (t', r)
        | unchanged ↦ ok (t, r)
        | failed ↦ attempts rng round_int py n m t sigma r
        | Attempt.index_error ↦ Outcome.index_error
        | Attempt.overflow x ↦ Outcome.overflow x
        | Attempt.no_attribute name ↦ Outcome.no_attribute name
        | Attempt.outside name ↦ Outcome.outside name
      ])
  after n m t sigma (made t') r h good rest = good
  after n m t sigma unchanged r h good rest = h
  after n m t sigma failed r h good rest = rest
  after n m t sigma Attempt.index_error r h good rest = elim good [ ]
  after n m t sigma (Attempt.overflow x) r h good rest = good
  after n m t sigma (Attempt.no_attribute name) r h good rest = elim good [ ]
  after n m t sigma (Attempt.outside name) r h good rest = elim good [ ]

  attempts-GivesAccepted :
      (n : ℕ) (m : Member F) (t : TuningConstants F) (sigma : F) (r : R)
      → Fits m
      → post_init t ≡ none
      → GivesAccepted py (attempts rng round_int py n m t sigma r)
  unfolding attempts
  attempts-GivesAccepted zero m t sigma r fit h = h
  attempts-GivesAccepted (suc n) m t sigma r fit h =
      let (attempt, r') = apply_one_mutation rng round_int py m t sigma r in
      after n m t sigma attempt r' h (fit.good t sigma r)
        (attempts-GivesAccepted n m t sigma r' fit h)

  then_GivesAccepted :
      (o : Outcome F (TuningConstants F × R))
      (f : TuningConstants F × R → Outcome F (TuningConstants F × R))
      → GivesAccepted py o
      → ((t : TuningConstants F) (r : R) → post_init t ≡ none → GivesAccepted py (f (t, r)))
      → GivesAccepted py (o >>=ₒ f)
  then_GivesAccepted (ok (t, r)) f h next = next t r h
  then_GivesAccepted Outcome.index_error f h next = elim h [ ]
  then_GivesAccepted (Outcome.overflow x) f h next = h
  then_GivesAccepted (Outcome.unknown_kind k) f h next = elim h [ ]
  then_GivesAccepted (Outcome.no_attribute n) f h next = elim h [ ]
  then_GivesAccepted (Outcome.outside n) f h next = elim h [ ]

  field-GivesAccepted :
      (m : Member F) (t : TuningConstants F) (sigma : F) (r : R)
      → Fits m
      → post_init t ≡ none
      → GivesAccepted py (mutate_field rng round_int py m t sigma r)
  unfolding mutate_field
  field-GivesAccepted m t sigma r fit h =
      subst
        (λ (invalid : Option String).
          GivesAccepted py (elim invalid as (λ _. Outcome F (TuningConstants F × R)) [
            | some kind ↦ Outcome.unknown_kind kind
            | none ↦ attempts rng round_int py (retries rng round_int m.max_retries + 1) m t sigma r
          ]))
        (sym fit.valid)
        (attempts-GivesAccepted (retries rng round_int m.max_retries + 1) m t sigma r fit h)

  each-GivesAccepted :
      (ms : List (Member F)) (t : TuningConstants F) (sigma : F) (r : R)
      → AllFit ms
      → post_init t ≡ none
      → GivesAccepted py (mutate_each rng round_int py ms t sigma r)
  unfolding mutate_each
  each-GivesAccepted [] t sigma r fits h = h
  each-GivesAccepted (m ∷ ms) t sigma r (fit, fits) h =
      then_GivesAccepted (mutate_field rng round_int py m t sigma r) _
        (field-GivesAccepted m t sigma r fit h)
        (λ t' r' h'. each-GivesAccepted ms t' sigma r' fits h')

  members_of-AllFit :
      (cluster : String) (cm : Dict (List (Member F)))
      → MapFits cm
      → AllFit (members_of rng round_int cluster cm)
  unfolding lookup
  members_of-AllFit cluster [] fits = tt
  members_of-AllFit cluster ((k, ms) ∷ cm) (fit, fits) =
      found (str_eq k cluster) (members_of-AllFit cluster cm fits)
    where
      found :
          (b : Bool)
          → AllFit (members_of rng round_int cluster cm)
          → AllFit (elim (if b then some ms else lookup cluster cm) as (λ _. List (Member F)) [
            | none ↦ []
            | some members ↦ members
          ])
      found true rest = fit
      found false rest = rest

  module _ (samples : SamplesMembers) where
    sampled-GivesAccepted :
        (ms : List (Member F)) (n_mutations : Option ℕ) (t : TuningConstants F) (sigma : F) (r : R)
        → AllFit ms
        → post_init t ≡ none
        → GivesAccepted py (elim ms as (λ _. Outcome F (TuningConstants F × R)) [
          | [] ↦ ok (t, r)
          | m ∷ members ↦
              let (chosen, r') =
                rng.sample
                  (m ∷ members)
                  (mutation_count rng round_int n_mutations (m ∷ members))
                  r in
              mutate_each rng round_int py chosen t sigma r'
        ])
    sampled-GivesAccepted [] n_mutations t sigma r fits h = h
    sampled-GivesAccepted (m ∷ ms) n_mutations t sigma r fits h =
        let n = mutation_count rng round_int n_mutations (m ∷ ms) in
        each-GivesAccepted (rng.sample (m ∷ ms) n r).0 t sigma (rng.sample (m ∷ ms) n r).1
          (fits_of _ (m ∷ ms) (samples (m ∷ ms) n r) fits) h

    cluster-GivesAccepted :
        (cm : Dict (List (Member F))) (t : TuningConstants F) (cluster : String) (sigma : F)
        (n_mutations : Option ℕ) (r : R)
        → MapFits cm
        → post_init t ≡ none
        → GivesAccepted py (mutate_cluster rng round_int py cm t cluster sigma n_mutations r)
    unfolding mutate_cluster
    cluster-GivesAccepted cm t cluster sigma n_mutations r fits h =
        sampled-GivesAccepted (members_of rng round_int cluster cm) n_mutations t sigma r
          (members_of-AllFit cluster cm fits) h

    pub clusters-GivesAccepted :
        (cm : Dict (List (Member F))) (clusters : List String) (t : TuningConstants F) (sigma : F)
        (r : R)
        → MapFits cm
        → post_init t ≡ none
        → GivesAccepted py (mutate_clusters rng round_int py cm clusters t sigma r)
    unfolding mutate_clusters
    clusters-GivesAccepted cm [] t sigma r fits h = h
    clusters-GivesAccepted cm (c ∷ clusters) t sigma r fits h =
        then_GivesAccepted (mutate_cluster rng round_int py cm t c sigma none r) _
          (cluster-GivesAccepted cm t c sigma none r fits h)
          (λ t' r' h'. clusters-GivesAccepted cm clusters t' sigma r' fits h')
