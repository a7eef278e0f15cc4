-- ===== src/Infra/MemoryCache/Invariant.antt =====
-- Capacity and distinct keys, kept by every method.
use pyharmonics_gpt.Prelude.{
  ℕ, ◌≤◌, ◌≡◌, refl, some, [], ◌∷◌, String, str_eq, arith, length, Bool-cases, inl, inr,
  if◌then◌else◌,
}
use pyharmonics_gpt.Dict.{
  Dict, lookup, contains, insert, erase, move_to_end, HasDistinctKeys, insert-HasDistinctKeys,
  erase-HasDistinctKeys, move_to_end-HasDistinctKeys, length-erase, length-move_to_end,
  lookup-insert, lookup-move_to_end,
}
use pyharmonics_gpt.Float.{Float, add, lit}
use pyharmonics_gpt.Infra.MemoryCache.{MemoryCache, evict, get, set, delete}

pub record IsValid {F V : Type 0} (c : MemoryCache F V) : Type 0 where
  pub positive : 1 ≤ c.max_size
  pub bounded : length c.items ≤ c.max_size
  pub distinct : HasDistinctKeys c.items

module _ {A : Type 0} where
  pub length-evict : (n : ℕ) (m : Dict A) → length (evict n m) ≤ n
  unfolding evict
  length-evict n [] = omega arith
  length-evict n (e ∷ m) = ground (arith, length-evict n m)

  pub evict_fits : (n : ℕ) (m : Dict A) → length m ≤ n → evict n m ≡ m
  unfolding evict
  evict_fits n [] h = refl
  evict_fits n (e ∷ m) h = ground arith

  pub evict-HasDistinctKeys : (n : ℕ) (m : Dict A) → HasDistinctKeys m → HasDistinctKeys (evict n m)
  unfolding evict
  evict-HasDistinctKeys n [] h = tt
  evict-HasDistinctKeys n ((k, v) ∷ m) h = ground (arith, evict-HasDistinctKeys n m h.1)

  length-erase_le : (k : String) (m : Dict A) → length (erase k m) ≤ length m
  length-erase_le k m = ground (arith, length-erase k m)

module _ {F V : Type 0} ⦃d : Float F⦄ where
  pub get-IsValid :
      (now : F) (key : String) (c : MemoryCache F V) → IsValid c → IsValid (get now key c).1
  unfolding get
  get-IsValid now key c v = ground (
    arith,
    v.positive,
    v.bounded,
    v.distinct,
    erase-HasDistinctKeys key c.items v.distinct,
    move_to_end-HasDistinctKeys key c.items v.distinct,
    length-erase_le key c.items,
    length-move_to_end key c.items,
  )

  -- what `set` stores before it evicts
  abbrev pub stored : F → String → V → MemoryCache F V → Dict (F × V)
  stored now key value c =
      insert key (add now (lit c.ttl_seconds 0), value)
        (if contains key c.items then move_to_end key c.items else c.items)

  pub stored-HasDistinctKeys :
      (now : F) (key : String) (value : V) (c : MemoryCache F V)
      → HasDistinctKeys c.items
      → HasDistinctKeys (stored now key value c)
  stored-HasDistinctKeys now key value c h = elim (Bool-cases (contains key c.items)) [
    | inl e ↦ rw e (
        insert-HasDistinctKeys key _ (move_to_end key c.items)
          (move_to_end-HasDistinctKeys key c.items h))
    | inr e ↦ rw e (insert-HasDistinctKeys key _ c.items h)
  ]

  pub lookup-stored :
      (now : F) (key j : String) (value : V) (c : MemoryCache F V)
      → HasDistinctKeys c.items
      → lookup j (stored now key value c)
        ≡ (if str_eq key j then some (add now (lit c.ttl_seconds 0), value) else lookup j c.items)
  lookup-stored now key j value c h = elim (Bool-cases (contains key c.items)) [
    | inl e ↦ rw e (
        rw (lookup-insert j key _ (move_to_end key c.items))
          (rw (lookup-move_to_end j key c.items h)))
    | inr e ↦ rw e (lookup-insert j key _ c.items)
  ]

  pub set-IsValid :
      (now : F) (key : String) (value : V) (c : MemoryCache F V)
      → IsValid c
      → IsValid (set now key value c)
  unfolding set
  set-IsValid now key value c v = record {
    positive = v.positive;
    bounded = length-evict c.max_size (stored now key value c);
    distinct =
        evict-HasDistinctKeys c.max_size _ (stored-HasDistinctKeys now key value c v.distinct);
  }

  pub delete-IsValid : (key : String) (c : MemoryCache F V) → IsValid c → IsValid (delete key c).1
  unfolding delete
  delete-IsValid key c v = ground (
    arith,
    v.positive,
    v.bounded,
    v.distinct,
    erase-HasDistinctKeys key c.items v.distinct,
    length-erase_le key c.items,
  )
