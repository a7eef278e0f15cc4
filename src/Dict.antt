-- ===== src/Dict.antt =====
-- A Python dict with text keys, in insertion order (also an OrderedDict), and the laws of its methods.
use pyharmonics_gpt.Prelude.{
  suc, ◌≡◌, refl, ◌∙◌, ap, Bool, true, false, Option, none, some, List, [], ◌∷◌, ◌++◌, String,
  str_eq, eq_iff, eq_refl, arith, length, length-append, Option-cases, inl, inr, if◌then◌else◌,
}

abbrev pub Dict : Type 0 → Type 0
Dict A = List (String × A)

module _ {A : Type 0} where
  unfoldable pub lookup : String → Dict A → Option A
  lookup k [] = none
  lookup k ((j, v) ∷ m) = if str_eq j k then some v else lookup k m

  unfoldable pub contains : String → Dict A → Bool
  unfolding lookup
  contains k m = elim (lookup k m) [ none ↦ false | some _ ↦ true ]

  -- `m[k] = v` keeps the place of a key that is there
  unfoldable pub insert : String → A → Dict A → Dict A
  insert k v [] = (k, v) ∷ []
  insert k v ((j, w) ∷ m) = if str_eq j k then (j, v) ∷ m else (j, w) ∷ insert k v m

  -- `del m[k]`, and nothing on a missing key
  unfoldable pub erase : String → Dict A → Dict A
  erase k [] = []
  erase k ((j, w) ∷ m) = if str_eq j k then m else (j, w) ∷ erase k m

  -- `m.move_to_end(k)`
  unfoldable pub move_to_end : String → Dict A → Dict A
  unfolding lookup erase
  move_to_end k m = elim (lookup k m) [ none ↦ m | some v ↦ erase k m ++ (k, v) ∷ [] ]

  -- no key stands twice
  abbrev pub HasDistinctKeys : Dict A → Type 0
  HasDistinctKeys [] = Unit
  HasDistinctKeys ((k, v) ∷ m) = (lookup k m ≡ none) × HasDistinctKeys m

  pub contains-false : (k : String) (m : Dict A) → contains k m ≡ false → lookup k m ≡ none
  unfolding contains
  contains-false k m h = ground arith

  pub lookup-append :
      (k : String) (m n : Dict A)
      → lookup k (m ++ n) ≡ elim (lookup k m) [ none ↦ lookup k n | some v ↦ some v ]
  unfolding lookup
  lookup-append k [] n = refl
  lookup-append k ((j, w) ∷ m) n = ground (arith, lookup-append k m n)

  pub lookup-erase :
      (j k : String) (m : Dict A)
      → HasDistinctKeys m
      → lookup j (erase k m) ≡ (if str_eq k j then none else lookup j m)
  unfolding lookup erase
  lookup-erase j k [] h = ground arith
  lookup-erase j k ((i, w) ∷ m) h =
      ground (arith, lookup-erase j k m h.1, eq_iff i k, eq_iff i j, eq_iff k j)

  pub lookup-insert :
      (j k : String) (v : A) (m : Dict A)
      → lookup j (insert k v m) ≡ (if str_eq k j then some v else lookup j m)
  unfolding lookup insert
  lookup-insert j k v [] = refl
  lookup-insert j k v ((i, w) ∷ m) =
      ground (arith, lookup-insert j k v m, eq_iff i k, eq_iff i j, eq_iff k j)

  pub lookup-move_to_end :
      (j k : String) (m : Dict A) → HasDistinctKeys m → lookup j (move_to_end k m) ≡ lookup j m
  unfolding move_to_end
  lookup-move_to_end j k m h = elim (Option-cases (lookup k m)) [
    | inl e ↦ rw (e, move_to_end)
    | inr (v, e) ↦
        rw (e, move_to_end)
          (rw (lookup-append j (erase k m) ((k, v) ∷ [])) (
            unfold lookup in
            ground
              (arith, lookup-erase j k m h, eq_iff k j, e, ap (λ i. lookup i m) {x = k} {y = j})))
  ]

  pub insert-HasDistinctKeys :
      (k : String) (v : A) (m : Dict A) → HasDistinctKeys m → HasDistinctKeys (insert k v m)
  unfolding insert
  insert-HasDistinctKeys k v [] h = (unfold lookup in refl, tt)
  insert-HasDistinctKeys k v ((i, w) ∷ m) h =
      ground
        (arith, insert-HasDistinctKeys k v m h.1, lookup-insert i k v m, eq_iff k i, eq_iff i k)

  pub erase-HasDistinctKeys :
      (k : String) (m : Dict A) → HasDistinctKeys m → HasDistinctKeys (erase k m)
  unfolding erase
  erase-HasDistinctKeys k [] h = tt
  erase-HasDistinctKeys k ((i, w) ∷ m) h =
      ground (arith, erase-HasDistinctKeys k m h.1, lookup-erase i k m h.1, eq_iff k i, eq_iff i k)

  snoc-HasDistinctKeys :
      (k : String) (v : A) (m : Dict A)
      → HasDistinctKeys m
      → lookup k m ≡ none
      → HasDistinctKeys (m ++ (k, v) ∷ [])
  unfolding lookup
  snoc-HasDistinctKeys k v [] h e = (refl, tt)
  snoc-HasDistinctKeys k v ((i, w) ∷ m) h e = ground (
    arith,
    snoc-HasDistinctKeys k v m h.1,
    lookup-append i m ((k, v) ∷ []),
    eq_iff k i,
    eq_iff i k,
  )

  pub move_to_end-HasDistinctKeys :
      (k : String) (m : Dict A) → HasDistinctKeys m → HasDistinctKeys (move_to_end k m)
  unfolding move_to_end
  move_to_end-HasDistinctKeys k m h = elim (Option-cases (lookup k m)) [
    | inl e ↦ rw (e, move_to_end) h
    | inr (v, e) ↦
        rw (e, move_to_end)
          (snoc-HasDistinctKeys k v (erase k m) (erase-HasDistinctKeys k m h)
            (lookup-erase k k m h ∙ ground (arith, eq_refl k)))
  ]

  pub length-insert :
      (k : String) (v : A) (m : Dict A)
      → length (insert k v m) ≡ (if contains k m then length m else suc (length m))
  unfolding insert contains lookup
  length-insert k v [] = refl
  length-insert k v ((i, w) ∷ m) = ground (arith, length-insert k v m)

  pub length-erase :
      (k : String) (m : Dict A)
      → length m ≡ (if contains k m then suc (length (erase k m)) else length (erase k m))
  unfolding erase contains lookup
  length-erase k [] = refl
  length-erase k ((i, w) ∷ m) = ground (arith, length-erase k m)

  pub length-move_to_end : (k : String) (m : Dict A) → length (move_to_end k m) ≡ length m
  unfolding move_to_end contains
  length-move_to_end k m = elim (Option-cases (lookup k m)) [
    | inl e ↦ rw (e, move_to_end)
    | inr (v, e) ↦
        rw (e, move_to_end)
          (length-append (erase k m) ((k, v) ∷ []) ∙ ground (arith, length-erase k m, e))
  ]
