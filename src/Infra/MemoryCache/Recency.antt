-- ===== src/Infra/MemoryCache/Recency.antt =====
-- The place of an entry in the order of use, under each method of the dict.
use pyharmonics_gpt.Prelude.{
  ℕ, ◌+◌, ◌≤◌, ◌<◌, ◌≡◌, ◌≢◌, refl, ◌∙◌, ap, Bool, true, false, Option, none, some, [], ◌∷◌, ◌++◌,
  String, str_eq, eq_iff, eq_refl, arith, length, length-append, false≢true, Option-cases, inl, inr,
  if◌then◌else◌,
}
use pyharmonics_gpt.Dict.{
  Dict, lookup, contains, insert, erase, move_to_end, HasDistinctKeys, length-insert, length-erase,
  lookup-move_to_end, lookup-erase,
}
use pyharmonics_gpt.Infra.MemoryCache.{evict}

module _ {A : Type 0} where
  -- the number of entries that were used later than `k`
  abbrev pub behind : String → Dict A → ℕ
  behind k [] = 0
  behind k ((j, v) ∷ m) = if str_eq j k then length m else behind k m

  -- An entry with fewer than `n` later ones survives an eviction down to `n`.
  pub evict_keeps :
      (n : ℕ) (k : String) (m : Dict A)
      → behind k m < n
      → (lookup k (evict n m) ≡ lookup k m) × (behind k (evict n m) ≡ behind k m)
  unfolding evict lookup
  evict_keeps n k [] h = (refl, refl)
  evict_keeps n k ((j, v) ∷ m) h = ground (arith, evict_keeps n k m)

  pub behind-insert :
      (k j : String) (v : A) (m : Dict A) → j ≢ k → behind k (insert j v m) ≤ behind k m + 1
  unfolding insert
  behind-insert k j v [] h = ground (arith, eq_iff j k)
  behind-insert k j v ((i, w) ∷ m) h =
      ground
        (arith, behind-insert k j v m h, length-insert j v m, eq_iff j k, eq_iff i k, eq_iff i j)

  -- writing to a key that is there moves nothing
  pub behind-insert_old :
      (k j : String) (v : A) (m : Dict A)
      → contains j m ≡ true
      → behind k (insert j v m) ≡ behind k m
  unfolding insert contains
  behind-insert_old k j v [] h = absurd (false≢true h)
  behind-insert_old k j v ((i, w) ∷ m) h =
      ground (arith, behind-insert_old k j v m, length-insert j v m, eq_iff i k, eq_iff i j)

  pub behind-erase : (k j : String) (m : Dict A) → j ≢ k → behind k (erase j m) ≤ behind k m
  unfolding erase
  behind-erase k j [] h = omega arith
  behind-erase k j ((i, w) ∷ m) h =
      ground (arith, behind-erase k j m h, length-erase j m, eq_iff j k, eq_iff i k, eq_iff i j)

  behind-snoc :
      (k j : String) (v : A) (m : Dict A) → j ≢ k → behind k (m ++ (j, v) ∷ []) ≤ behind k m + 1
  behind-snoc k j v [] h = ground (arith, eq_iff j k)
  behind-snoc k j v ((i, w) ∷ m) h =
      ground (arith, behind-snoc k j v m h, length-append m ((j, v) ∷ []))

  pub behind-move_to_end :
      (k j : String) (m : Dict A) → j ≢ k → behind k (move_to_end j m) ≤ behind k m + 1
  unfolding move_to_end
  behind-move_to_end k j m h = elim (Option-cases (lookup j m)) [
    | inl e ↦ rw (e, move_to_end) (omega arith)
    | inr (v, e) ↦
        rw (e, move_to_end) (omega (arith, behind-snoc k j v (erase j m) h, behind-erase k j m h))
  ]

  pub contains-move_to_end :
      (j k : String) (m : Dict A) → HasDistinctKeys m → contains j (move_to_end k m) ≡ contains j m
  unfolding contains
  contains-move_to_end j k m h =
      ap (λ (o : Option A). elim o as (λ x. Bool) [ none ↦ false | some _ ↦ true ])
        (lookup-move_to_end j k m h)

  behind-snoc_self :
      (k : String) (v : A) (m : Dict A) → lookup k m ≡ none → behind k (m ++ (k, v) ∷ []) ≡ 0
  unfolding lookup
  behind-snoc_self k v [] h = ground (arith, eq_refl k)
  behind-snoc_self k v ((i, w) ∷ m) h = ground (arith, behind-snoc_self k v m)

  -- the entry that was just moved is the last
  pub behind-move_to_end_self :
      (k : String) {v : A} (m : Dict A)
      → HasDistinctKeys m
      → lookup k m ≡ some v
      → behind k (move_to_end k m) ≡ 0
  unfolding move_to_end
  behind-move_to_end_self k {v} m h e =
      rw (e, move_to_end)
        (behind-snoc_self k v (erase k m) (lookup-erase k k m h ∙ ground (arith, eq_refl k)))

  pub behind-insert_new :
      (k : String) (v : A) (m : Dict A) → contains k m ≡ false → behind k (insert k v m) ≡ 0
  unfolding insert contains
  behind-insert_new k v [] h = ground (arith, eq_refl k)
  behind-insert_new k v ((i, w) ∷ m) h = ground (arith, behind-insert_new k v m)
