-- ===== src/Config/Tuning/Coherence.antt =====
-- What accepted constants satisfy.
use pyharmonics_gpt.Prelude.{
  ◌≡◌, Bool, true, false, none, some, arith, List, [], ◌∷◌, ◌++◌, map, String, ℤ, pos, ◌≤ℤ◌, leb_ℤ,
  ltb_ℤ, Bool-cases, Option-cases, inl, inr,
}
use pyharmonics_gpt.Float.{Float, IsOrdered, IsNumber, lt, le, lit, max, le_of_not_lt}
use pyharmonics_gpt.Dict.{Dict, lookup, contains}
use pyharmonics_gpt.Config.Tuning.{
  TuningConstants, TuningError, not_positive, atr_windows, first_error, lacks_key,
  required_stop_loss_levels, required_htf_keys, hard_checks, soft_checks, window_checks, int_fields,
  post_init,
}

abbrev AllPass : List (Bool × TuningError) → Type 0
AllPass [] = Unit
AllPass ((failed, e) ∷ checks) = (failed ≡ false) × AllPass checks

first_error-AllPass :
    (xs ys : List (Bool × TuningError))
    → first_error (xs ++ ys) ≡ none
    → AllPass xs × (first_error ys ≡ none)
first_error-AllPass [] ys h = (tt, h)
first_error-AllPass ((failed, e) ∷ xs) ys h = elim (Bool-cases failed) [
  | inl f ↦ ground (arith, h, f)
  | inr p ↦ let (rest, k) = first_error-AllPass xs ys (ground (arith, h, p)) in ((p, rest), k)
]

all_pass : (xs : List (Bool × TuningError)) → first_error xs ≡ none → AllPass xs
all_pass [] h = tt
all_pass ((failed, e) ∷ xs) h = elim (Bool-cases failed) [
  | inl f ↦ ground (arith, h, f)
  | inr p ↦ (p, all_pass xs (ground (arith, h, p)))
]

-- every key is there
abbrev pub HasKeys : {A : Type 0} → List String → Dict A → Type 0
HasKeys [] m = Unit
HasKeys {A} (k ∷ required) m = ((v : A) × (lookup k m ≡ some v)) × HasKeys required m

contains-lookup :
    {A : Type 0} (k : String) (m : Dict A) → contains k m ≡ true → (v : A) × (lookup k m ≡ some v)
unfolding contains
contains-lookup k m h = elim (Option-cases (lookup k m)) [
  | inl e ↦ absurd (ground (arith, e, h))
  | inr found ↦ found
]

lacks_key-HasKeys :
    {A : Type 0} (required : List String) (m : Dict A)
    → lacks_key required m ≡ false
    → HasKeys required m
unfolding lacks_key
lacks_key-HasKeys [] m h = tt
lacks_key-HasKeys (k ∷ required) m h =
    (contains-lookup k m (ground (arith, h)), lacks_key-HasKeys required m (ground (arith, h)))

abbrev pub ArePositive : List ℤ → Type 0
ArePositive [] = Unit
ArePositive (v ∷ vs) = (pos 1 ≤ℤ v) × ArePositive vs

positive_of :
    (vs : List ℤ) (e : TuningError) (rest : List (Bool × TuningError))
    → AllPass (map (λ v. (leb_ℤ v (pos 0), e)) vs ++ rest)
    → ArePositive vs × AllPass rest
positive_of [] e rest h = (tt, h)
positive_of (v ∷ vs) e rest (h, hs) =
    let (vs_pos, passed) = positive_of vs e rest hs in ((ground (arith, h), vs_pos), passed)

module _ {F : Type 0} ⦃d : Float F⦄ where
  -- no lookup that the rules make can fail, the windows are at least one bar, and the bands are in order
  pub record IsCoherent (t : TuningConstants F) : Type 0 where
    pub levels : HasKeys required_stop_loss_levels t.atr_stop_buffer
    pub intervals : HasKeys required_htf_keys t.htf_rule
    pub windows : ArePositive (int_fields t)
    pub atr_order : t.atr_window ≤ℤ t.atr_long_window
    pub veto_below_halve : ltb_ℤ t.authenticity_veto t.authenticity_halve ≡ true
    pub trending_ceiling : le t.mult_trending_inverse (lit 15 1) ≡ true
    pub ranging_ceiling : le t.mult_ranging_inverse (lit 15 1) ≡ true
    pub extreme_ceiling_kept : le t.mult_extreme_inverse (lit 15 1) ≡ true
    pub data_short_least : le (lit 5 1) t.mult_data_short ≡ true
    pub data_short_most : le t.mult_data_short (lit 1 0) ≡ true

  -- `a` and `b` are below `c`, the greater of them is not above it, and `c` is not above the top
  below_ceiling :
      (o : IsOrdered F) (a b c top : F)
      → IsNumber a
      → IsNumber b
      → IsNumber c
      → IsNumber top
      → lt c (max a b) ≡ false
      → lt top c ≡ false
      → (le a top ≡ true) × (le b top ≡ true) × (le c top ≡ true)
  below_ceiling o a b c top ha hb hc ht h k = ground (
    arith,
    o.le_of_lt a b,
    le_of_not_lt o a b ha hb,
    le_of_not_lt o c a hc ha,
    le_of_not_lt o c b hc hb,
    le_of_not_lt o top c ht hc k,
    o.le_trans a b c,
    o.le_trans b a c,
    o.le_trans a c top,
    o.le_trans b c top,
  )

  -- Constants that `__post_init__` accepts, whose inverse and extreme multipliers are numbers, have a
  -- buffer for each stop level and a rule for each interval, positive windows, an ATR window no longer
  -- than the long one, a veto below the halving threshold, inverse and extreme multipliers of at most 1.5, and a
  -- multiplier between 0.5 and 1 for missing data.
  pub post_init-IsCoherent :
      (o : IsOrdered F) (t : TuningConstants F)
      → IsNumber t.mult_trending_inverse
      → IsNumber t.mult_ranging_inverse
      → IsNumber t.mult_extreme_inverse
      → post_init t ≡ none
      → IsCoherent t
  unfolding post_init hard_checks soft_checks window_checks
  post_init-IsCoherent o t ht hr he h =
      let (hard, rest) = first_error-AllPass (hard_checks t) (soft_checks t ++ window_checks t) h in
      let (soft, windows) = first_error-AllPass (soft_checks t) (window_checks t) rest in
      let (are_positive, last) =
        positive_of (int_fields t) not_positive
          ((ltb_ℤ t.atr_long_window t.atr_window, atr_windows) ∷ [])
          (all_pass (window_checks t) windows) in
      let ceilings =
        below_ceiling o t.mult_trending_inverse t.mult_ranging_inverse t.mult_extreme_inverse
          (lit 15 1) ht hr he (o.lit_IsNumber 15 1) (soft.0) (soft.1.1.1.1.0) in
      record {
        levels =
            lacks_key-HasKeys required_stop_loss_levels t.atr_stop_buffer (hard.1.1.1.1.1.1.1.0);
        intervals = lacks_key-HasKeys required_htf_keys t.htf_rule (hard.1.1.1.1.1.1.1.1.1.0);
        windows = are_positive;
        atr_order = ground (arith, last.0);
        veto_below_halve = ground (arith, hard.1.1.0);
        trending_ceiling = ceilings.0;
        ranging_ceiling = ceilings.1;
        extreme_ceiling_kept = ceilings.2;
        data_short_least = ground (arith, soft.1.1.1.0);
        data_short_most = ground (arith, soft.1.1.1.0);
      }
