-- ===== src/Infra/VibeEventStore/Numbering.antt =====
-- Lists of events: their places, their numbers and their ids.
use pyharmonics_gpt.Prelude.{
  ℕ, zero, suc, ◌+◌, ◌-◌, ◌≡◌, refl, sym, ap, ◌∙◌, Bool, true, false, Option, none, some, List, [],
  ◌∷◌, ◌++◌, String, arith, eq_refl, length, filter, ltb, IsIn, drop, first, pos, ◌+ℤ◌, inl, inr,
  Bool-cases,
}
use pyharmonics_gpt.Infra.VibeEventStore.{Event, has_id, slice, after_id}

pos-add : (a b : ℕ) → pos a +ℤ pos b ≡ pos (a + b)
unfolding ◌+ℤ◌
pos-add a b = ground arith

-- `events[k + 1 : k + 1 + limit]`
pub slice-first :
    {A : Type 0} (k limit : ℕ) (xs : List A)
    → slice (pos k +ℤ pos 1) ((pos k +ℤ pos 1) +ℤ pos limit) xs ≡ first limit (drop (suc k) xs)
unfolding slice
slice-first k limit xs =
    let width : k + 1 + limit - (k + 1) ≡ limit = omega arith in
    let start : k + 1 ≡ suc k = omega arith in
    rw (pos-add k 1) (
      rw (pos-add (k + 1) limit)
        (ap (λ n. first n (drop (k + 1) xs)) width ∙ ap (λ n. first limit (drop n xs)) start))

pub drop_all : {A : Type 0} (n : ℕ) (xs : List A) → length xs ≡ n → drop n xs ≡ []
drop_all zero [] h = refl
drop_all zero (x ∷ xs) h = absurd (omega (arith, h))
drop_all (suc n) [] h = refl
drop_all (suc n) (x ∷ xs) h = drop_all n xs (omega (arith, h))

pub first_nil : {A : Type 0} (n : ℕ) → first {A = A} n [] ≡ []
first_nil zero = refl
first_nil (suc n) = refl

drop_nil : {A : Type 0} (n : ℕ) → drop {A = A} n [] ≡ []
drop_nil zero = refl
drop_nil (suc n) = refl

module _ {B : Type 0} where
  -- what the schema accepts keeps its number
  abbrev pub KeepsSeq : (Event B → Option (Event B)) → Type 0
  KeepsSeq validate = (ev v : Event B) → validate ev ≡ some v → v.seq ≡ ev.seq

  abbrev pub is_after : ℕ → Event B → Bool
  is_after k ev = elim ev.seq [ none ↦ false | some s ↦ ltb k s ]

  -- the events have the numbers from `n` on
  abbrev pub IsNumbered : ℕ → List (Event B) → Type 0
  IsNumbered n [] = Unit
  IsNumbered n (ev ∷ events) = (ev.seq ≡ some n) × IsNumbered (suc n) events

  pub drop-IsNumbered :
      (n k : ℕ) (events : List (Event B))
      → IsNumbered n events
      → drop (suc k - n) events ≡ filter (is_after k) events
  drop-IsNumbered n k [] h = drop_nil (suc k - n)
  drop-IsNumbered n k (ev ∷ events) (seq, rest) =
      let ih = drop-IsNumbered (suc n) k events rest in
      elim (Bool-cases (ltb k n)) [
        | inl e ↦
            let none_dropped : suc k - n ≡ 0 = ground (arith, e) in
            let none_dropped' : suc k - suc n ≡ 0 = ground (arith, e) in
            let all_after : is_after k ev ≡ true = rw seq e in
            rw (none_dropped, all_after)
              (ap (λ l. ev ∷ l) (ap (λ m. drop m events) (sym none_dropped') ∙ ih))
        | inr e ↦
            let one_more : suc k - n ≡ suc (suc k - suc n) = ground (arith, e) in
            let not_after : is_after k ev ≡ false = rw seq e in rw (one_more, not_after) ih
      ]

  pub last-IsNumbered :
      (k n : ℕ) (events : List (Event B))
      → length events ≡ suc k
      → IsNumbered n events
      → (ev : Event B) × IsIn ev events × (ev.seq ≡ some (k + n))
  last-IsNumbered k n [] size h = absurd (omega (arith, size))
  last-IsNumbered zero n (ev ∷ events) size h = (ev, inl refl, h.0 ∙ ap some (omega arith))
  last-IsNumbered (suc k) n (ev ∷ events) size h =
      let (found, there, seq) = last-IsNumbered k (suc n) events (omega (arith, size)) h.1 in
      (found, inr there, seq ∙ ap some (omega arith))

  -- the id of no event of the list
  abbrev pub HasNone : String → List (Event B) → Type 0
  HasNone id [] = Unit
  HasNone id (ev ∷ events) = (has_id id ev.event_id ≡ false) × HasNone id events

  after_id-true : (id : String) (events : List (Event B)) → after_id id true events ≡ events
  unfolding after_id
  after_id-true id [] = refl
  after_id-true id (ev ∷ events) = ap (λ l. ev ∷ l) (after_id-true id events)

  pub after_id-append :
      (id : String) (ev : Event B) (earlier later : List (Event B))
      → HasNone id earlier
      → ev.event_id ≡ some id
      → after_id id false (earlier ++ ev ∷ later) ≡ later
  unfolding after_id
  after_id-append id ev [] later h e =
      ap (λ o. after_id id (has_id id o) later) e
      ∙ ap (λ b. after_id id b later) (eq_refl id)
      ∙ after_id-true id later
  after_id-append id ev (x ∷ earlier) later h e =
      ap (λ b. after_id id b (earlier ++ ev ∷ later)) h.0
      ∙ after_id-append id ev earlier later h.1 e
