-- ===== src/Services/SignalEngine/Best.antt =====
-- The signal that is picked, and where it comes from.
use pyharmonics_gpt.Prelude.{
  ℕ, ◌≡◌, refl, Bool, true, false, arith, inl, inr, IsIn, some, List, [], ◌∷◌, ℤ, if◌then◌else◌,
}
use pyharmonics_gpt.Services.SignalEngine.Context.{Signal}
use pyharmonics_gpt.Services.SignalEngine.Ranking.{
  grade_rank, beats, outranks, best_from, rank_signals,
}

beats_irrefl : (g : ℕ) (s : ℤ) (f : Bool) → beats g s f g s f ≡ false
unfolding beats
beats_irrefl g s f = ground arith

beats_asymm :
    (g : ℕ) (s : ℤ) (f : Bool) (g2 : ℕ) (s2 : ℤ) (f2 : Bool)
    → beats g s f g2 s2 f2 ≡ true
    → beats g2 s2 f2 g s f ≡ false
unfolding beats
beats_asymm g s f g2 s2 f2 h = ground arith

not_beats_trans :
    (g : ℕ) (s : ℤ) (f : Bool) (g2 : ℕ) (s2 : ℤ) (f2 : Bool) (g3 : ℕ) (s3 : ℤ) (f3 : Bool)
    → beats g s f g2 s2 f2 ≡ false
    → beats g2 s2 f2 g3 s3 f3 ≡ false
    → beats g s f g3 s3 f3 ≡ false
unfolding beats
not_beats_trans g s f g2 s2 f2 g3 s3 f3 h k = ground arith

module _ {F : Type 0} where
  not_outranks_trans :
      (a b c : Signal F) → outranks a b ≡ false → outranks b c ≡ false → outranks a c ≡ false
  unfolding outranks
  not_outranks_trans a b c =
      not_beats_trans (grade_rank a.grade) a.confluence_score a.formed (grade_rank b.grade)
        b.confluence_score b.formed (grade_rank c.grade) c.confluence_score c.formed

  outranks_asymm : (a b : Signal F) → outranks a b ≡ true → outranks b a ≡ false
  unfolding outranks
  outranks_asymm a b =
      beats_asymm (grade_rank a.grade) a.confluence_score a.formed (grade_rank b.grade)
        b.confluence_score b.formed

  outranks_irrefl : (a : Signal F) → outranks a a ≡ false
  unfolding outranks
  outranks_irrefl a = beats_irrefl (grade_rank a.grade) a.confluence_score a.formed

  abbrev pub NoneOutranks : Signal F → List (Signal F) → Type 0
  NoneOutranks best [] = Unit
  NoneOutranks best (s ∷ signals) = (outranks s best ≡ false) × NoneOutranks best signals

  -- one of the signals, and none is better
  abbrev pub IsBest : List (Signal F) → Signal F → Type 0
  IsBest signals best = IsIn best signals × NoneOutranks best signals

  pick-IsBest :
      (b : Bool) (best s r : Signal F) (signals : List (Signal F))
      → outranks s best ≡ b
      → IsBest ((if b then s else best) ∷ signals) r
      → IsBest (best ∷ s ∷ signals) r
  pick-IsBest true best s r signals e (found, (none_better, rest)) = (
    inr found,
    (not_outranks_trans best s r (outranks_asymm s best e) none_better, (none_better, rest)),
  )
  pick-IsBest false best s r signals e (inl here, (none_better, rest)) =
      (inl here, (none_better, (not_outranks_trans s best r e none_better, rest)))
  pick-IsBest false best s r signals e (inr there, (none_better, rest)) =
      (inr (inr there), (none_better, (not_outranks_trans s best r e none_better, rest)))

  best_from-IsBest :
      (best : Signal F) (signals : List (Signal F))
      → (r : Signal F) × (best_from (some best) signals ≡ some r) × IsBest (best ∷ signals) r
  unfolding best_from
  best_from-IsBest best [] = (best, refl, (inl refl, (outranks_irrefl best, tt)))
  best_from-IsBest best (s ∷ signals) =
      let (r, e, h) = best_from-IsBest (if outranks s best then s else best) signals in
      (r, e, pick-IsBest (outranks s best) best s r signals refl h)

  -- Of a list of signals that is not empty, one is picked that stands in the list, and no signal of the
  -- list has a better grade, or the same and a higher score, or the same of both and is formed where the
  -- picked one is not.
  pub rank_signals-IsBest :
      (s : Signal F) (signals : List (Signal F))
      → (r : Signal F) × (rank_signals (s ∷ signals) ≡ some r) × IsBest (s ∷ signals) r
  unfolding rank_signals best_from
  rank_signals-IsBest s signals = best_from-IsBest s signals
