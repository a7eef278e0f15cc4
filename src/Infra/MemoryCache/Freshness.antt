-- ===== src/Infra/MemoryCache/Freshness.antt =====
-- The cache never answers with anything but the latest write, and never after its expiry.
use mathlib.Core.Path.{subst}
use pyharmonics_gpt.Prelude.{
  ℕ, ◌≡◌, refl, ◌∙◌, sym, false, Option, none, some, List, [], ◌∷◌, String, str_eq, eq_iff, arith,
  if◌then◌else◌,
}
use pyharmonics_gpt.Dict.{
  Dict, lookup, HasDistinctKeys, lookup-move_to_end, lookup-erase, contains-false,
}
use pyharmonics_gpt.Float.{Float, gt, add, lit}
use pyharmonics_gpt.Infra.MemoryCache.{MemoryCache, evict, get, set, delete}
use pyharmonics_gpt.Infra.MemoryCache.Invariant.{
  IsValid, stored, stored-HasDistinctKeys, lookup-stored,
}
use pyharmonics_gpt.Infra.MemoryCache.Client.{
  Call, get_call, set_call, delete_call, apply, apply_all, apply-IsValid, ttl_seconds-apply,
}

lookup-evict :
    {A : Type 0} (n : ℕ) (k : String) (m : Dict A) (e : A)
    → HasDistinctKeys m
    → lookup k (evict n m) ≡ some e
    → lookup k m ≡ some e
unfolding evict lookup
lookup-evict n k [] e h p = p
lookup-evict n k ((j, v) ∷ m) e h p = ground (arith, lookup-evict n k m e h.1, eq_iff j k)

module _ {F V : Type 0} ⦃d : Float F⦄ where
  -- The specification, an unbounded map that forgets nothing: the latest write to `k`, with its
  -- expiry, unless a deletion came after it.
  pub latest : ℕ → String → List (Call F V) → Option (F × V) → Option (F × V)
  latest ttl k [] w = w
  latest ttl k (get_call now j ∷ calls) w = latest ttl k calls w
  latest ttl k (set_call now j v ∷ calls) w =
      latest ttl k calls (if str_eq j k then some (add now (lit ttl 0), v) else w)
  latest ttl k (delete_call j ∷ calls) w = latest ttl k calls (if str_eq j k then none else w)

  -- the entry of `k`, if there is one, is `w`
  abbrev pub Agrees : String → MemoryCache F V → Option (F × V) → Type 0
  Agrees k c w = (e : F × V) → lookup k c.items ≡ some e → w ≡ some e

  -- One call keeps the agreement, in step with the specification.
  apply-Agrees :
      (call : Call F V) (k : String) (c : MemoryCache F V) (w : Option (F × V))
      → IsValid c
      → Agrees k c w
      → Agrees k (apply call c) (latest c.ttl_seconds k (call ∷ []) w)
  unfolding apply latest
  apply-Agrees (get_call now j) k c w v h e =
      unfold get in
      ground
        (arith, h e, lookup-erase k j c.items v.distinct, lookup-move_to_end k j c.items v.distinct)
  apply-Agrees (set_call now j value) k c w v h e =
      unfold set in
      ground (
        arith,
        h e,
        lookup-evict c.max_size k (stored now j value c) e
            (stored-HasDistinctKeys now j value c v.distinct),
        lookup-stored now j k value c v.distinct,
      )
  apply-Agrees (delete_call j) k c w v h e =
      unfold delete in
      ground (arith, h e, lookup-erase k j c.items v.distinct, contains-false k c.items, eq_iff j k)

  latest-cons :
      (ttl : ℕ) (k : String) (call : Call F V) (calls : List (Call F V)) (w : Option (F × V))
      → latest ttl k (call ∷ calls) w ≡ latest ttl k calls (latest ttl k (call ∷ []) w)
  unfolding latest
  latest-cons ttl k (get_call now j) calls w = refl
  latest-cons ttl k (set_call now j v) calls w = refl
  latest-cons ttl k (delete_call j) calls w = refl

  apply_all-Agrees :
      (ttl : ℕ) (calls : List (Call F V)) (k : String) (c : MemoryCache F V) (w : Option (F × V))
      → c.ttl_seconds ≡ ttl
      → IsValid c
      → Agrees k c w
      → Agrees k (apply_all calls c) (latest ttl k calls w)
  unfolding apply_all
  apply_all-Agrees ttl [] k c w e v h = unfold latest in h
  apply_all-Agrees ttl (call ∷ calls) k c w e v h =
      subst (Agrees k (apply_all calls (apply call c))) (sym (latest-cons ttl k call calls w)) (
        apply_all-Agrees ttl calls k (apply call c) (latest ttl k (call ∷ []) w)
          (ttl_seconds-apply call c ∙ e) (apply-IsValid call c v)
          (subst (λ t. Agrees k (apply call c) (latest t k (call ∷ []) w)) e
            (apply-Agrees call k c w v h)))

  -- After any calls on a cache with no items, `get` answers only with the value of the latest write
  -- to its key that no deletion followed, and only while the clock has not passed its expiry.
  pub get_is_latest :
      (c : MemoryCache F V) (calls : List (Call F V)) (now : F) (k : String) (v : V)
      → IsValid c
      → c.items ≡ []
      → (get now k (apply_all calls c)).0 ≡ some v
      → (expires : F) × (latest c.ttl_seconds k calls none ≡ some (expires, v))
        × (gt now expires ≡ false)
  get_is_latest c calls now k v valid empty h = go (lookup k (apply_all calls c).items) refl (
      apply_all-Agrees c.ttl_seconds calls k c none refl valid
        (λ e p. unfold lookup in absurd (ground (arith, empty, p))))
    where
      go :
          (o : Option (F × V))
          → lookup k (apply_all calls c).items ≡ o
          → Agrees k (apply_all calls c) (latest c.ttl_seconds k calls none)
          → (expires : F) × (latest c.ttl_seconds k calls none ≡ some (expires, v))
            × (gt now expires ≡ false)
      go none e agrees = absurd (unfold get in ground (arith, e, h))
      go (some (expires, u)) e agrees = (
        expires,
        agrees (expires, v) (unfold get in ground (arith, e, h)),
        unfold get in ground (arith, e, h),
      )
