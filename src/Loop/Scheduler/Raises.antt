-- ===== src/Loop/Scheduler/Raises.antt =====
-- When `plateau_count_from_history` raises: `sorted` meets None beside a whole number.
use mathlib.Core.Option
use pyharmonics_gpt.Prelude.{
  ℕ, suc, ◌≤◌, ◌≡◌, refl, ◌∙◌, ap, Bool, true, false, ◌&&◌, ◌||◌, arith, inl, inr, Bool-cases,
  Option-cases, Option, none, some, List, [], ◌∷◌, any,
}
use pyharmonics_gpt.Float.{Float}
use pyharmonics_gpt.Loop.Scheduler.History.{
  Line, blank, corrupt, parsed, HistoryRecord, is_accepted, gen_eq, fitness_of, keep_best,
  read_line, read_all, sort_gens, plateau_of, plateau_count_from_history,
}

abbrev Best : Type 0 → Type 0
Best F = List (Option ℕ × F × Option F)

abbrev pub is_none {ℓ} : {A : Type ℓ} → Option A → Bool
is_none none = true
is_none (some n) = false

abbrev pub is_some {ℓ} : {A : Type ℓ} → Option A → Bool
is_some none = false
is_some (some n) = true

-- the entries filed under None
abbrev none_keys : {F : Type 0} → Best F → ℕ
none_keys [] = 0
none_keys ((none, f, t) ∷ best) = suc (none_keys best)
none_keys ((some g, f, t) ∷ best) = none_keys best

module _ {F : Type 0} ⦃d : Float F⦄ where
  -- the line is an accepted record, and its generation passes the test
  abbrev pub accepts : (Option ℕ → Bool) → Line F → Bool
  accepts p blank = false
  accepts p corrupt = false
  accepts p (parsed r) = is_accepted r.decision && p r.gen

  -- a test that equal generations pass together is passed by a key of the dict exactly if it is
  -- passed by an accepted record
  keep_best-any :
      (p : Option ℕ → Bool) (g : Option ℕ) (f : F) (t : Option F) (best : Best F)
      → ((a b : Option ℕ) → gen_eq a b ≡ true → p a ≡ p b)
      → any (λ e. p e.0) (keep_best g f t best) ≡ (any (λ e. p e.0) best || p g)
  unfolding keep_best
  keep_best-any p g f t [] h = ground arith
  keep_best-any p g f t ((k, v, u) ∷ best) h = ground (arith, h g k, keep_best-any p g f t best h)

  read_all-any :
      (p : Option ℕ → Bool) (best : Best F) (lines : List (Line F))
      → ((a b : Option ℕ) → gen_eq a b ≡ true → p a ≡ p b)
      → any (λ e. p e.0) (read_all read_line best lines)
        ≡ (any (λ e. p e.0) best || any (accepts p) lines)
  unfolding read_all read_line
  read_all-any p best [] h = ground arith
  read_all-any p best (blank ∷ lines) h = read_all-any p best lines h
  read_all-any p best (corrupt ∷ lines) h = read_all-any p best lines h
  read_all-any p best (parsed r ∷ lines) h =
      ground (arith, read_all-any p (read_line best (parsed r)) lines h, one_line p best r h)
    where
      one_line :
          (q : Option ℕ → Bool) (b : Best F) (x : HistoryRecord F)
          → ((a c : Option ℕ) → gen_eq a c ≡ true → q a ≡ q c)
          → any (λ e. q e.0) (read_line b (parsed x))
            ≡ (any (λ e. q e.0) b || (is_accepted x.decision && q x.gen))
      one_line q b x k =
          unfold read_line in ground (arith, keep_best-any q x.gen (fitness_of x.fitness) x.ts b k)

  sort_gens-is_none : (best : Best F) → sort_gens best ≡ none → any (λ e. is_none e.0) best ≡ true
  unfolding sort_gens
  sort_gens-is_none [] h = cc
  sort_gens-is_none ((none, f, t) ∷ best) h = refl
  sort_gens-is_none ((some g, f, t) ∷ best) h = ground (arith, sort_gens-is_none best)

  sort_gens-raises : (best : Best F) → any (λ e. is_none e.0) best ≡ true → sort_gens best ≡ none
  unfolding sort_gens
  sort_gens-raises [] h = cc
  sort_gens-raises ((none, f, t) ∷ best) h = refl
  sort_gens-raises ((some g, f, t) ∷ best) h = ground (arith, sort_gens-raises best)

  keep_best-none_keys-some :
      (g : ℕ) (f : F) (t : Option F) (best : Best F)
      → none_keys (keep_best (some g) f t best) ≡ none_keys best
  unfolding keep_best gen_eq
  keep_best-none_keys-some g f t [] = refl
  keep_best-none_keys-some g f t ((none, v, u) ∷ best) =
      ap suc (keep_best-none_keys-some g f t best)
  keep_best-none_keys-some g f t ((some k, v, u) ∷ best) =
      ground (arith, keep_best-none_keys-some g f t best)

  keep_best-none_keys :
      (g : Option ℕ) (f : F) (t : Option F) (best : Best F)
      → none_keys best ≤ 1
      → none_keys (keep_best g f t best) ≤ 1
  unfolding keep_best gen_eq
  keep_best-none_keys (some g) f t best h = omega (arith, keep_best-none_keys-some g f t best)
  keep_best-none_keys none f t [] h = omega arith
  keep_best-none_keys none f t ((none, v, u) ∷ best) h = ground arith
  keep_best-none_keys none f t ((some k, v, u) ∷ best) h = keep_best-none_keys none f t best h

  read_all-none_keys :
      (best : Best F) (lines : List (Line F))
      → none_keys best ≤ 1
      → none_keys (read_all read_line best lines) ≤ 1
  unfolding read_all read_line
  read_all-none_keys best [] h = h
  read_all-none_keys best (blank ∷ lines) h = read_all-none_keys best lines h
  read_all-none_keys best (corrupt ∷ lines) h = read_all-none_keys best lines h
  read_all-none_keys best (parsed r ∷ lines) h =
      read_all-none_keys (read_line best (parsed r)) lines
        (ground (arith, keep_best-none_keys r.gen (fitness_of r.fitness) r.ts best h))

  sort_gens-is_raised :
      (best : Best F)
      → is_none (Option.map plateau_of (sort_gens best)) ≡ any (λ e. is_none e.0) best
  sort_gens-is_raised best = elim (Bool-cases (any (λ e. is_none e.0) best)) [
    | inl e ↦ rw (sort_gens-raises best e, e)
    | inr e ↦ elim (Option-cases (sort_gens best)) [
      | inl f ↦ cc (sort_gens-is_none best f)
      | inr (l, f) ↦ rw (f, e)
    ]
  ]

  -- The count raises a TypeError exactly if the accepted records of the file hold both a generation
  -- number and a missing one.
  pub plateau_count_raises :
      (lines : List (Line F))
      → is_none (plateau_count_from_history lines)
        ≡ (any (accepts is_none) lines && any (accepts is_some) lines)
  unfolding plateau_count_from_history
  plateau_count_raises lines =
      go (read_all read_line [] lines) (read_all-none_keys [] lines (omega arith))
        (read_all-any is_none [] lines (λ a b. gen_eq-is_none a b))
        (read_all-any is_some [] lines (λ a b. gen_eq-is_some a b))
    where
      gen_eq-is_none : (a b : Option ℕ) → gen_eq a b ≡ true → is_none a ≡ is_none b
      gen_eq-is_none none none h = refl
      gen_eq-is_none none (some b) h = unfold gen_eq in cc
      gen_eq-is_none (some a) none h = unfold gen_eq in cc
      gen_eq-is_none (some a) (some b) h = refl

      gen_eq-is_some : (a b : Option ℕ) → gen_eq a b ≡ true → is_some a ≡ is_some b
      gen_eq-is_some none none h = refl
      gen_eq-is_some none (some b) h = unfold gen_eq in cc
      gen_eq-is_some (some a) none h = unfold gen_eq in cc
      gen_eq-is_some (some a) (some b) h = refl

      go :
          (best : Best F)
          → none_keys best ≤ 1
          → any (λ e. is_none e.0) best ≡ any (accepts is_none) lines
          → any (λ e. is_some e.0) best ≡ any (accepts is_some) lines
          → is_none {A = ℕ} (elim best [
            | [] ↦ some 0
            | e ∷ [] ↦ some 0
            | e ∷ f ∷ rest ↦ Option.map plateau_of (sort_gens (e ∷ f ∷ rest))
          ])
            ≡ (any (accepts is_none) lines && any (accepts is_some) lines)
      go [] h p q = ground (arith, p, q)
      go ((none, v, t) ∷ []) h p q = ground (arith, p, q)
      go ((some g, v, t) ∷ []) h p q = ground (arith, p, q)
      go ((none, v, t) ∷ (none, w, u) ∷ rest) h p q = absurd (omega arith)
      go ((none, v, t) ∷ (some k, w, u) ∷ rest) h p q =
          sort_gens-is_raised ((none, v, t) ∷ (some k, w, u) ∷ rest) ∙ ground (arith, p, q)
      go ((some g, v, t) ∷ f ∷ rest) h p q =
          sort_gens-is_raised ((some g, v, t) ∷ f ∷ rest) ∙ ground (arith, p, q)
