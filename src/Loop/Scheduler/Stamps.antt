-- ===== src/Loop/Scheduler/Stamps.antt =====
-- The age of the last improvement, where every time stamp can be read.
use mathlib.Core.Option
use pyharmonics_gpt.Prelude.{
  ℕ, ◌≡◌, refl, Bool, true, false, not, ◌&&◌, ◌||◌, sub_ℕ, String, arith, inl, inr, Bool-cases,
  Option, none, some, List, [], ◌∷◌, all, ℤ, if◌then◌else◌,
}
use pyharmonics_gpt.Float.{Float, gt}
use pyharmonics_gpt.Loop.Scheduler.History.{
  Line, blank, corrupt, parsed, is_accepted, gen_eq, fitness_of, keep_best, read_stamped, read_all,
  insert_gen, sort_gens, growth_loop, last_growth, last_improvement_age,
}
use pyharmonics_gpt.Loop.Scheduler.Raises.{is_some}

module _ {F : Type 0} ⦃d : Float F⦄ (from_timestamp : F → Option ℕ) where
  abbrev pub is_readable : Option F → Bool
  is_readable none = true
  is_readable (some t) = is_some (from_timestamp t)

  -- an accepted record whose time stamp, if it has one, is in range
  abbrev pub is_stamped : Line F → Bool
  is_stamped blank = true
  is_stamped corrupt = true
  is_stamped (parsed r) = not (is_accepted r.decision) || is_readable r.ts

  abbrev IsReadable : List (Option ℕ × F × Option F) → Type 0
  IsReadable best = all (λ e. is_some (e.0) && is_readable (e.2)) best ≡ true

  keep_best-IsReadable :
      (g : ℕ) (f : F) (t : Option F) (best : List (Option ℕ × F × Option F))
      → is_readable t ≡ true
      → IsReadable best
      → IsReadable (keep_best (some g) f t best)
  unfolding keep_best gen_eq
  keep_best-IsReadable g f t [] h k = ground (arith, h)
  keep_best-IsReadable g f t ((none, v, u) ∷ best) h k = absurd (ground (arith, k))
  keep_best-IsReadable g f t ((some n, v, u) ∷ best) h k =
      ground (arith, h, k, keep_best-IsReadable g f t best h)

  read_stamped-IsReadable :
      (best : List (Option ℕ × F × Option F)) (gen : Option ℕ) (decision : Option String)
      (fitness ts : Option F)
      → (not (is_accepted decision) || is_readable ts) ≡ true
      → IsReadable best
      → IsReadable (
          read_stamped best
            (parsed (record { gen = gen; decision = decision; fitness = fitness; ts = ts })))
  unfolding read_stamped
  read_stamped-IsReadable best none decision fitness ts h k = k
  read_stamped-IsReadable best (some g) decision fitness none h k = k
  read_stamped-IsReadable best (some g) decision fitness (some t) h k =
      elim (Bool-cases (is_accepted decision)) [
        | inl e ↦
            rw e
              (keep_best-IsReadable g (fitness_of fitness) (some t) best (ground (arith, h, e)) k)
        | inr e ↦ rw e k
      ]

  read_all-IsReadable :
      (best : List (Option ℕ × F × Option F)) (lines : List (Line F))
      → all is_stamped lines ≡ true
      → IsReadable best
      → IsReadable (read_all read_stamped best lines)
  unfolding read_all read_stamped
  read_all-IsReadable best [] h k = k
  read_all-IsReadable best (blank ∷ lines) h k = read_all-IsReadable best lines h k
  read_all-IsReadable best (corrupt ∷ lines) h k = read_all-IsReadable best lines h k
  read_all-IsReadable best (parsed r ∷ lines) h k =
      read_all-IsReadable (read_stamped best (parsed r)) lines (ground (arith, h))
        (read_stamped-IsReadable best r.gen r.decision r.fitness r.ts (ground (arith, h)) k)

  insert_gen-all :
      (g : ℕ) (f : F) (t : Option F) (l : List (ℕ × F × Option F))
      → is_readable t ≡ true
      → all (λ e. is_readable (e.2)) l ≡ true
      → all (λ e. is_readable (e.2)) (insert_gen g (f, t) l) ≡ true
  unfolding insert_gen
  insert_gen-all g f t [] h k = ground (arith, h)
  insert_gen-all g f t ((n, v, u) ∷ l) h k = ground (arith, h, k, insert_gen-all g f t l h)

  sort_gens-readable :
      (best : List (Option ℕ × F × Option F))
      → IsReadable best
      → (l : List (ℕ × F × Option F)) × (sort_gens best ≡ some l)
        × (all (λ e. is_readable (e.2)) l ≡ true)
  unfolding sort_gens
  sort_gens-readable [] h = ([], refl, refl)
  sort_gens-readable ((none, f, t) ∷ rest) h = absurd (ground (arith, h))
  sort_gens-readable ((some g, f, t) ∷ rest) h =
      let (l, e, k) = sort_gens-readable rest (ground (arith, h)) in
      (insert_gen g (f, t) l, rw e refl, insert_gen-all g f t l (ground (arith, h)) k)

  growth_loop-readable :
      (prev : F) (last : Option F) (l : List (ℕ × F × Option F))
      → is_readable last ≡ true
      → all (λ e. is_readable (e.2)) l ≡ true
      → is_readable (growth_loop prev last l) ≡ true
  unfolding growth_loop
  growth_loop-readable prev last [] h k = h
  growth_loop-readable prev last ((g, f, t) ∷ l) h k =
      growth_loop-readable (if gt f prev then f else prev) (if gt f prev then t else last) l
        (chosen (gt f prev)) (ground (arith, k))
    where
      chosen : (b : Bool) → is_readable (if b then t else last) ≡ true
      chosen true = ground (arith, k)
      chosen false = h

  last_growth-readable :
      (l : List (ℕ × F × Option F))
      → all (λ e. is_readable (e.2)) l ≡ true
      → is_readable (last_growth l) ≡ true
  unfolding last_growth
  last_growth-readable [] k = refl
  last_growth-readable ((g, f, t) ∷ l) k =
      growth_loop-readable f t l (ground (arith, k)) (ground (arith, k))

  -- The age is found, or there is none, if the time stamps of the accepted records are in range.
  pub last_improvement_age_returns :
      (lines : List (Line F)) (now : ℕ)
      → all is_stamped lines ≡ true
      → (age : Option ℤ) × (last_improvement_age from_timestamp lines now ≡ some age)
  unfolding last_improvement_age
  last_improvement_age_returns lines now h =
      let (l, e, k) =
        sort_gens-readable (read_all read_stamped [] lines) (read_all-IsReadable [] lines h refl) in
      rw (e, last_improvement_age) (by_stamp (last_growth l) (last_growth-readable l k))
    where
      by_time :
          (o : Option ℕ)
          → is_some o ≡ true
          → (age : Option ℤ) × (Option.map (λ time. some (sub_ℕ now time)) o ≡ some age)
      by_time none h = absurd (ground (arith, h))
      by_time (some time) h = (some (sub_ℕ now time), refl)

      by_stamp :
          (o : Option F)
          → is_readable o ≡ true
          → (age : Option ℤ) × ((elim o as (λ _. Option (Option ℤ)) [
            | none ↦ some none
            | some t ↦ Option.map (λ time. some (sub_ℕ now time)) (from_timestamp t)
          ])
              ≡ some age)
      by_stamp none h = (none, refl)
      by_stamp (some t) h = by_time (from_timestamp t) h
