-- ===== src/Loop/Scheduler/Plateau.antt =====
-- What the count of `plateau_count_from_history` says of the generations' best fitness values.
use pyharmonics_gpt.Prelude.{
  ℕ, ◌+◌, ◌≡◌, refl, ◌∙◌, sym, ap, Bool, true, ◌&&◌, arith, inl, inr, Bool-cases, List, [], ◌∷◌,
  ◌++◌, length, length-append, all, append_assoc, append-nil, if◌then◌else◌, not,
}
use pyharmonics_gpt.Float.{Float, gt}
use pyharmonics_gpt.Loop.Scheduler.History.{plateau_loop}

module _ {F : Type 0} ⦃d : Float F⦄ where
  -- the best value seen, from `first` on
  abbrev pub best_of : F → List F → F
  best_of first [] = first
  best_of first (f ∷ fs) = best_of (if gt f first then f else first) fs

  -- no value of `fs` is above `b`
  abbrev pub none_above : F → List F → Bool
  none_above b fs = all (λ f. not (gt f b)) fs

  -- empty, or its last value is above all before it
  pub data EndsInRecord (first : F) : List F → Type 0 where
    start : EndsInRecord first []
    improved :
        (fs : List F) (f : F) → gt f (best_of first fs) ≡ true → EndsInRecord first (fs ++ f ∷ [])

  -- the last `n` values improve on nothing, and the value before them was a new best
  pub record IsPlateau (first : F) (fs : List F) (n : ℕ) : Type 0 where
    pub early : List F
    pub late : List F
    pub split : fs ≡ early ++ late
    pub count : length late ≡ n
    pub flat : none_above (best_of first early) late ≡ true
    pub peak : EndsInRecord first early

  best_of-append :
      (first : F) (xs ys : List F) → best_of first (xs ++ ys) ≡ best_of (best_of first xs) ys
  best_of-append first [] ys = refl
  best_of-append first (x ∷ xs) ys = best_of-append (if gt x first then x else first) xs ys

  best_of_flat : (b : F) (ys : List F) → none_above b ys ≡ true → best_of b ys ≡ b
  best_of_flat b [] h = refl
  best_of_flat b (y ∷ ys) h = elim (Bool-cases (gt y b)) [
    | inl e ↦ ground arith
    | inr e ↦ rw e (best_of_flat b ys (ground arith))
  ]

  none_above-snoc :
      (b f : F) (ys : List F) → none_above b (ys ++ f ∷ []) ≡ (none_above b ys && not (gt f b))
  none_above-snoc b f [] = ground arith
  none_above-snoc b f (y ∷ ys) = ground (arith, none_above-snoc b f ys)

  snoc-IsPlateau :
      (first f : F) (fs : List F) (n : ℕ)
      → IsPlateau first fs n
      → IsPlateau first (fs ++ f ∷ []) (if gt f (best_of first fs) then 0 else n + 1)
  snoc-IsPlateau first f fs n p = elim (Bool-cases (gt f (best_of first fs))) [
    | inl e ↦ rw e (record {
      early = fs ++ f ∷ [];
      late = [];
      split = sym (append-nil _);
      count = refl;
      flat = refl;
      peak = improved fs f e;
    })
    | inr e ↦
        let same : best_of first fs ≡ best_of first p.early =
          ap (best_of first) p.split
          ∙ (best_of-append first p.early p.late ∙ best_of_flat _ p.late p.flat) in
        rw e (record {
          early = p.early;
          late = p.late ++ f ∷ [];
          split = ap (λ l. l ++ f ∷ []) p.split ∙ append_assoc p.early p.late (f ∷ []);
          count = omega (arith, length-append p.late (f ∷ []), p.count);
          flat =
              none_above-snoc (best_of first p.early) f p.late
              ∙ ground (arith, p.flat, ap (gt f) same);
          peak = p.peak;
        })
  ]

  loop-IsPlateau :
      (first : F) (seen : List F) (n : ℕ) (fs : List F)
      → IsPlateau first seen n
      → IsPlateau first (seen ++ fs) (plateau_loop (best_of first seen) n fs)
  unfolding plateau_loop
  loop-IsPlateau first seen n [] p = rw append-nil p
  loop-IsPlateau first seen n (f ∷ fs) p =
      rw (← append_assoc seen (f ∷ []) fs, ← best_of-append first seen (f ∷ []))
        (loop-IsPlateau first (seen ++ f ∷ []) (if gt f (best_of first seen) then 0 else n + 1) fs
          (snoc-IsPlateau first f seen n p))

  -- The count is the length of the longest stretch at the end of the later generations in which none
  -- is above the best before it: the stretch starts right behind a strict improvement, or behind
  -- the first generation.
  pub plateau_loop-IsPlateau :
      (first : F) (fs : List F) → IsPlateau first fs (plateau_loop first 0 fs)
  plateau_loop-IsPlateau first fs =
      loop-IsPlateau first [] 0 fs
        (record { early = []; late = []; split = refl; count = refl; flat = refl; peak = start })
