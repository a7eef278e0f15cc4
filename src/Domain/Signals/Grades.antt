-- ===== src/Domain/Signals/Grades.antt =====
-- What a grade stands for.
use mathlib.Core.Option.{some-injective, none-ne-some}
use pyharmonics_gpt.Prelude.{
  ℕ, ◌≤◌, ◌≡◌, refl, sym, subst, Bool, true, false, ◌&&◌, ◌||◌, arith, Option, none, some, String,
  str_eq, if◌then◌else◌,
}
use pyharmonics_gpt.Float.{Float, lt, ge, lit}
use pyharmonics_gpt.Domain.Signals.{is_wide, reference_grade, at_least, grade_of, graded, grade}

-- the grades from none to A
abbrev pub rank : Option String → ℕ
rank none = 0
rank (some g) = if str_eq g "A" then 3 else if str_eq g "B" then 2 else 1

returned :
    (broken : Bool) (value g : Option String)
    → (if broken then none else some value) ≡ some g
    → value ≡ g
returned true value g e = absurd (none-ne-some g e)
returned false value g e = some-injective value g e

module _ {F : Type 0} ⦃d : Float F⦄ where
  grade_of-monotone :
      (score score2 : ℕ) (rr_tp1 rr_tp2 : F) (htf_aligned htf_counter : Bool) (a_min : ℕ)
      (width_pct : Option F)
      → score ≤ score2
      → rank (grade_of (at_least score) rr_tp1 rr_tp2 htf_aligned htf_counter a_min width_pct)
        ≤ rank (grade_of (at_least score2) rr_tp1 rr_tp2 htf_aligned htf_counter a_min width_pct)
  unfolding grade_of reference_grade
  grade_of-monotone score score2 rr_tp1 rr_tp2 htf_aligned htf_counter a_min width_pct h =
      ground arith

  -- Everything else alike, a higher confluence score never lowers the grade: where neither call
  -- violates the contract, the second is ranked at least as high.
  pub grade-monotone :
      (score score2 : ℕ) (rr_tp1 rr_tp2 : Option F) (htf_aligned htf_counter : Bool) (a_min : ℕ)
      (width_pct : Option F) (g g2 : Option String)
      → score ≤ score2
      → grade score rr_tp1 rr_tp2 htf_aligned htf_counter a_min width_pct ≡ some g
      → grade score2 rr_tp1 rr_tp2 htf_aligned htf_counter a_min width_pct ≡ some g2
      → rank g ≤ rank g2
  unfolding grade graded
  grade-monotone score score2 none rr_tp2 htf_aligned htf_counter a_min width_pct g g2 h e e2 =
      subst (λ x. rank x ≤ rank g2) (returned _ none g e) (omega arith)
  grade-monotone score score2 (some one) none htf_aligned htf_counter a_min width_pct g g2 h e e2 =
      subst (λ x. rank x ≤ rank g2) (returned _ none g e) (omega arith)
  grade-monotone score score2 (some one) (some two) htf_aligned htf_counter a_min width_pct g g2 h e
        e2 =
      subst (λ x. rank x ≤ rank g2)
        (returned _ (grade_of (at_least score) one two htf_aligned htf_counter a_min width_pct) g e)
        (subst
          (λ x.
            rank (grade_of (at_least score) one two htf_aligned htf_counter a_min width_pct)
            ≤ rank x)
          (returned _ (grade_of (at_least score2) one two htf_aligned htf_counter a_min width_pct)
            g2 e2)
          (grade_of-monotone score score2 one two htf_aligned htf_counter a_min width_pct h))

  -- the conditions of an A or a B
  abbrev pub Earns : (ℕ → Bool) → F → F → Bool → Bool → ℕ → Option F → Type 0
  Earns reaches one two htf_aligned htf_counter a_min width_pct =
      (is_wide width_pct ≡ false)
      × (htf_counter ≡ false)
      × (lt one (lit 1 0) ≡ false)
      × (lt two (lit 15 1) ≡ false)
      × ((reaches 60 || (reaches a_min && ge two (lit 2 0) && htf_aligned)) ≡ true)

  grade_of-Earns :
      (reaches : ℕ → Bool) (one two : F) (htf_aligned htf_counter : Bool) (a_min : ℕ)
      (width_pct : Option F)
      → 2 ≤ rank (grade_of reaches one two htf_aligned htf_counter a_min width_pct)
      → Earns reaches one two htf_aligned htf_counter a_min width_pct
  unfolding grade_of reference_grade
  grade_of-Earns reaches one two htf_aligned htf_counter a_min width_pct h =
      (ground arith, ground arith, ground arith, ground arith, ground arith)

  -- both ratios were given, and the grade is earned by them
  abbrev pub IsEarned : (ℕ → Bool) → Option F → Option F → Bool → Bool → ℕ → Option F → Type 0
  IsEarned reaches rr_tp1 rr_tp2 htf_aligned htf_counter a_min width_pct =
      (one : F) × (two : F) × (rr_tp1 ≡ some one)
      × (rr_tp2 ≡ some two)
      × Earns reaches one two htf_aligned htf_counter a_min width_pct

  pub graded-IsEarned :
      (required : Bool) (reaches : ℕ → Bool) (rr_tp1 rr_tp2 : Option F)
      (htf_aligned htf_counter : Bool) (a_min : ℕ) (width_pct : Option F) (g : Option String)
      → graded required reaches rr_tp1 rr_tp2 htf_aligned htf_counter a_min width_pct ≡ some g
      → 2 ≤ rank g
      → IsEarned reaches rr_tp1 rr_tp2 htf_aligned htf_counter a_min width_pct
  unfolding graded
  graded-IsEarned required reaches none rr_tp2 htf_aligned htf_counter a_min width_pct g e h =
      absurd (omega (arith, subst (λ x. 2 ≤ rank x) (sym (returned _ none g e)) h))
  graded-IsEarned required reaches (some one) none htf_aligned htf_counter a_min width_pct g e h =
      absurd (omega (arith, subst (λ x. 2 ≤ rank x) (sym (returned _ none g e)) h))
  graded-IsEarned required reaches (some one) (some two) htf_aligned htf_counter a_min width_pct g e
        h =
      (
        one,
        two,
        refl,
        refl,
        grade_of-Earns reaches one two htf_aligned htf_counter a_min width_pct (
            subst (λ x. 2 ≤ rank x)
              (sym
                (returned _ (grade_of reaches one two htf_aligned htf_counter a_min width_pct) g e))
              h),
      )

  -- A call that returns A or B was given both ratios, net of costs not less than 1.0 R at the first
  -- target and 1.5 R at the second; the signal is not against the higher timeframe, its zone is
  -- narrower than 4% if its width is known, and its score is at least 60, or at least the threshold
  -- with 2.0 R at the second target and the higher timeframe on its side.
  pub grade-IsEarned :
      (score : ℕ) (rr_tp1 rr_tp2 : Option F) (htf_aligned htf_counter : Bool) (a_min : ℕ)
      (width_pct : Option F) (g : Option String)
      → grade score rr_tp1 rr_tp2 htf_aligned htf_counter a_min width_pct ≡ some g
      → 2 ≤ rank g
      → IsEarned (at_least score) rr_tp1 rr_tp2 htf_aligned htf_counter a_min width_pct
  unfolding grade
  grade-IsEarned score rr_tp1 rr_tp2 htf_aligned htf_counter a_min width_pct g e h =
      graded-IsEarned _ (at_least score) rr_tp1 rr_tp2 htf_aligned htf_counter a_min width_pct g e h
