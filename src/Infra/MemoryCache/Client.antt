-- ===== src/Infra/MemoryCache/Client.antt =====
-- What a client sees of the cache: a stored value comes back until it expires, and a used entry
-- outlives fewer than `max_size` calls on other keys.
use pyharmonics_gpt.Prelude.{
  ◌+◌, ◌≤◌, ◌<◌, ◌≡◌, ◌≢◌, refl, ◌∙◌, true, false, some, List, [], ◌∷◌, String, eq_iff, eq_refl,
  arith, length, Option-cases, Bool-cases, inl, inr,
}
use pyharmonics_gpt.Dict.{
  lookup, contains, move_to_end, HasDistinctKeys, lookup-move_to_end, lookup-erase,
}
use pyharmonics_gpt.Float.{Float, gt, add, lit}
use pyharmonics_gpt.Infra.MemoryCache.{MemoryCache, get, set, delete}
use pyharmonics_gpt.Infra.MemoryCache.Invariant.{
  IsValid, stored, lookup-stored, get-IsValid, set-IsValid, delete-IsValid,
}
use pyharmonics_gpt.Infra.MemoryCache.Recency.{
  behind, evict_keeps, behind-insert, behind-insert_old, behind-erase, behind-move_to_end,
  behind-move_to_end_self, contains-move_to_end, behind-insert_new,
}

-- A call on the cache, with the reading of the clock that it makes.
pub data Call (F V : Type 0) : Type 0 where
  get_call : F → String → Call F V
  set_call : F → String → V → Call F V
  delete_call : String → Call F V

abbrev pub key_of : {F V : Type 0} → Call F V → String
key_of (get_call now key) = key
key_of (set_call now key value) = key
key_of (delete_call key) = key

module _ {F V : Type 0} ⦃d : Float F⦄ where
  unfoldable pub apply : Call F V → MemoryCache F V → MemoryCache F V
  apply (get_call now key) c = (get now key c).1
  apply (set_call now key value) c = set now key value c
  apply (delete_call key) c = (delete key c).1

  unfoldable pub apply_all : List (Call F V) → MemoryCache F V → MemoryCache F V
  unfolding apply
  apply_all [] c = c
  apply_all (call ∷ calls) c = apply_all calls (apply call c)

  -- Every call of `get`, `set` and `delete` keeps a cache valid: of positive size, with no more
  -- entries than that, and no key twice.
  pub apply-IsValid : (call : Call F V) (c : MemoryCache F V) → IsValid c → IsValid (apply call c)
  unfolding apply
  apply-IsValid (get_call now key) c v = get-IsValid now key c v
  apply-IsValid (set_call now key value) c v = set-IsValid now key value c v
  apply-IsValid (delete_call key) c v = delete-IsValid key c v

  pub max_size-apply :
      (call : Call F V) (c : MemoryCache F V) → (apply call c).max_size ≡ c.max_size
  unfolding apply get set delete
  max_size-apply (get_call now j) c = ground arith
  max_size-apply (set_call now j value) c = refl
  max_size-apply (delete_call j) c = ground arith

  pub ttl_seconds-apply :
      (call : Call F V) (c : MemoryCache F V) → (apply call c).ttl_seconds ≡ c.ttl_seconds
  unfolding apply get set delete
  ttl_seconds-apply (get_call now j) c = ground arith
  ttl_seconds-apply (set_call now j value) c = refl
  ttl_seconds-apply (delete_call j) c = ground arith

  behind-stored :
      (now : F) (j k : String) (value : V) (c : MemoryCache F V)
      → HasDistinctKeys c.items
      → j ≢ k
      → behind k (stored now j value c) ≤ behind k c.items + 1
  behind-stored now j k value c h ne = elim (Bool-cases (contains j c.items)) [
    | inl e ↦ rw e (
        omega (
          arith,
          behind-insert_old k j (add now (lit c.ttl_seconds 0), value) (move_to_end j c.items)
              (contains-move_to_end j j c.items h ∙ e),
          behind-move_to_end k j c.items ne,
        ))
    | inr e ↦ rw e (behind-insert k j _ c.items ne)
  ]

  -- One call on another key moves an entry back by one place at most, and drops it only if it was
  -- the last in use of a full cache.
  pub apply_keeps :
      (call : Call F V) (k : String) (c : MemoryCache F V)
      → IsValid c
      → key_of call ≢ k
      → behind k c.items + 1 < c.max_size
      → let c' = apply call c in
        (lookup k c'.items ≡ lookup k c.items) × (behind k c'.items ≤ behind k c.items + 1)
  unfolding apply
  apply_keeps (get_call now j) k c v ne room =
      unfold get in
      ground (
        arith,
        behind-erase k j c.items ne,
        behind-move_to_end k j c.items ne,
        lookup-erase k j c.items v.distinct,
        lookup-move_to_end k j c.items v.distinct,
        eq_iff j k,
      )
  apply_keeps (set_call now j value) k c v ne room =
      unfold set in
      ground (
        arith,
        evict_keeps c.max_size k (stored now j value c),
        behind-stored now j k value c v.distinct ne,
        lookup-stored now j k value c v.distinct,
        eq_iff j k,
      )
  apply_keeps (delete_call j) k c v ne room =
      unfold delete in
      ground (arith, behind-erase k j c.items ne, lookup-erase k j c.items v.distinct, eq_iff j k)

  abbrev pub AreOnOthers : String → List (Call F V) → Type 0
  AreOnOthers k [] = Unit
  AreOnOthers k (call ∷ calls) = (key_of call ≢ k) × AreOnOthers k calls

  pub apply_all_keeps :
      (calls : List (Call F V)) (k : String) (c : MemoryCache F V)
      → IsValid c
      → AreOnOthers k calls
      → behind k c.items + length calls < c.max_size
      → lookup k (apply_all calls c).items ≡ lookup k c.items
  unfolding apply_all
  apply_all_keeps [] k c v ne room = refl
  apply_all_keeps (call ∷ calls) k c v ne room =
      let kept = apply_keeps call k c v ne.0 (omega arith) in
      let size : (apply call c).max_size ≡ c.max_size = max_size-apply call c in
      apply_all_keeps calls k (apply call c) (apply-IsValid call c v) ne.1
        (omega (arith, kept.1, size))
      ∙ kept.0

  set-behind :
      (t : F) (k : String) (v : V) (c : MemoryCache F V)
      → HasDistinctKeys c.items
      → behind k (stored t k v c) ≡ 0
  set-behind t k v c h = elim (Option-cases (lookup k c.items)) [
    | inl e ↦
        let new : contains k c.items ≡ false = unfold contains in ground (arith, e) in
        rw new (behind-insert_new k _ c.items new)
    | inr (w, e) ↦
        let old : contains k c.items ≡ true = unfold contains in ground (arith, e) in
        rw old (
          behind-insert_old k k _ (move_to_end k c.items) (contains-move_to_end k k c.items h ∙ old)
          ∙ behind-move_to_end_self k c.items h e)
  ]

  pub set_entry :
      (t : F) (k : String) (v : V) (c : MemoryCache F V)
      → IsValid c
      → (lookup k (set t k v c).items ≡ some (add t (lit c.ttl_seconds 0), v))
        × (behind k (set t k v c).items ≡ 0)
  unfolding set
  set_entry t k v c valid = ground (
    arith,
    valid.positive,
    evict_keeps c.max_size k (stored t k v c),
    set-behind t k v c valid.distinct,
    lookup-stored t k k v c valid.distinct,
    eq_refl k,
  )

  -- A stored value comes back after any calls on other keys, if these are fewer than `max_size` and
  -- the clock has not passed the time of the call plus `ttl_seconds`.
  pub get-set_survives :
      (c : MemoryCache F V) (t now : F) (k : String) (v : V) (calls : List (Call F V))
      → IsValid c
      → AreOnOthers k calls
      → length calls < c.max_size
      → gt now (add t (lit c.ttl_seconds 0)) ≡ false
      → (get now k (apply_all calls (set t k v c))).0 ≡ some v
  unfolding get
  get-set_survives c t now k v calls valid others few fresh =
      let entry = set_entry t k v c valid in
      ground (
        arith,
        fresh,
        entry.0,
        apply_all_keeps calls k (set t k v c) (set-IsValid t k v c valid) others
            (unfold set in omega (arith, entry.1)),
      )
