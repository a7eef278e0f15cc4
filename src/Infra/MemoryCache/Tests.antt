-- ===== src/Infra/MemoryCache/Tests.antt =====
-- The cache's theorems on a cache of three entries.
use pyharmonics_gpt.Prelude.{
  ℕ, ◌≡◌, refl, false, none, some, List, [], ◌∷◌, ℤ, pos, arith, eq_iff, false≢true,
}
use pyharmonics_gpt.Float.{gt}
use pyharmonics_gpt.Float.Fixed.{milli_float, milli_add}
use pyharmonics_gpt.Infra.MemoryCache.{MemoryCache, get, set, clear, keys, values, new_cache, evict}
use pyharmonics_gpt.Dict.{lookup, contains, insert, erase, move_to_end}
use pyharmonics_gpt.Infra.MemoryCache.Invariant.{IsValid}
use pyharmonics_gpt.Infra.MemoryCache.Client.{
  Call, get_call, set_call, apply_all, apply, get-set_survives, apply-IsValid,
}
use pyharmonics_gpt.Infra.MemoryCache.Freshness.{latest, get_is_latest}

abbrev cache : MemoryCache ℤ ℕ
cache = record { max_size = 3; ttl_seconds = 60; items = [] }

cache-IsValid : IsValid cache
cache-IsValid = record { positive = omega arith; bounded = omega arith; distinct = tt }

no_room : new_cache {F = ℤ} {V = ℕ} 0 60 ≡ none
unfolding new_cache
no_room = refl

-- the fourth entry evicts the first, and the second has expired at the end
abbrev crowded : MemoryCache ℤ ℕ
crowded =
    set (pos 90_000) "d" 4
      (set (pos 3000) "c" 3 (set (pos 2000) "b" 2 (set (pos 1000) "a" 1 cache)))

oldest_goes : keys crowded ≡ "b" ∷ "c" ∷ "d" ∷ []
unfolding keys set contains insert erase move_to_end evict lookup milli_add
oldest_goes = refl

expired_is_hidden : values (pos 62_500) crowded ≡ 3 ∷ 4 ∷ []
unfolding values set contains insert erase move_to_end evict lookup milli_add
expired_is_hidden = refl

cleared_is_empty : keys (clear crowded) ≡ []
unfolding keys clear
cleared_is_empty = refl

-- at 1 s, and later reads
abbrev writes : List (Call ℤ ℕ)
writes = set_call (pos 2000) "b" 7 ∷ get_call (pos 3000) "b" ∷ []

get-set_survives_example :
    (get (pos 60_000) "a" (apply_all writes (set (pos 1000) "a" 5 cache))).0 ≡ some 5
unfolding milli_add
get-set_survives_example =
    get-set_survives cache (pos 1000) (pos 60_000) "a" 5 writes cache-IsValid
      ((λ p. false≢true ((eq_iff "b" "a").1 p)), ((λ p. false≢true ((eq_iff "b" "a").1 p)), tt))
      (omega arith) refl

get_is_latest_example :
    (expires : ℤ) × (latest {V = ℕ} 60 "a" (set_call (pos 1000) "a" 5 ∷ []) none
      ≡ some (expires, 5))
    × (gt (pos 60_000) expires ≡ false)
unfolding get apply_all set milli_add
get_is_latest_example =
    get_is_latest cache (set_call (pos 1000) "a" 5 ∷ []) (pos 60_000) "a" 5 cache-IsValid refl refl

apply-IsValid_example : IsValid (apply (set_call (pos 1000) "a" 5) cache)
apply-IsValid_example = apply-IsValid (set_call (pos 1000) "a" 5) cache cache-IsValid
