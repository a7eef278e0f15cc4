-- ===== src/Infra/MemoryCache.antt =====
-- app/infra/memory_cache.py: the bounded cache with expiry and LRU eviction. The OrderedDict is the
-- list of its items, oldest first; each method takes the reading of `time.time()` that it makes.
pub mod Invariant
pub mod Recency
pub mod Client
pub mod Freshness
mod Tests
use pyharmonics_gpt.Prelude.{
  ℕ, ◌≡◌, Bool, true, false, Option, none, some, List, [], ◌∷◌, ◌++◌, String, length, ltb, leb,
  filter, map, if◌then◌else◌,
}
use pyharmonics_gpt.Dict.{Dict, lookup, contains, insert, erase, move_to_end}
use pyharmonics_gpt.Float.{Float, add, gt, le, lit}

pub record MemoryCache (F V : Type 0) : Type 0 where
  pub max_size : ℕ
  pub ttl_seconds : ℕ
  pub items : Dict (F × V)

-- `none` is the ValueError of `__init__`.
pub new_cache : {F V : Type 0} → ℕ → ℕ → Option (MemoryCache F V)
new_cache max_size ttl_seconds =
    if leb max_size 0
    then none
    else some (record { max_size = max_size; ttl_seconds = ttl_seconds; items = [] })

-- `while len(data) > max_size: data.popitem(last=False)`
unfoldable pub evict : {A : Type 0} → ℕ → Dict A → Dict A
evict max_size [] = []
evict max_size (e ∷ rest) =
    let popped = evict max_size rest in
    if ltb max_size (length (e ∷ rest)) then popped else e ∷ rest

module _ {F V : Type 0} ⦃d : Float F⦄ where
  unfoldable pub get : F → String → MemoryCache F V → Option V × MemoryCache F V
  unfolding lookup erase move_to_end
  get now key c = elim (lookup key c.items) [
    | none ↦ (none, c)
    | some (expires_at, value) ↦
        if gt now expires_at
        then (none, record c { items = erase key c.items })
        else (some value, record c { items = move_to_end key c.items })
  ]

  unfoldable pub set : F → String → V → MemoryCache F V → MemoryCache F V
  unfolding contains insert move_to_end evict
  set now key value c =
      let moved = if contains key c.items then move_to_end key c.items else c.items in
      let stored = insert key (add now (lit c.ttl_seconds 0), value) moved in
      record c { items = evict c.max_size stored }

  unfoldable pub delete : String → MemoryCache F V → Bool × MemoryCache F V
  unfolding contains erase
  delete key c =
      if contains key c.items then (true, record c { items = erase key c.items }) else (false, c)

  pub clear : MemoryCache F V → MemoryCache F V
  clear c = record c { items = [] }

  pub keys : MemoryCache F V → List String
  keys c = map (λ e. e.0) c.items

  pub values : F → MemoryCache F V → List V
  values now c = map (λ e. e.1.1) (filter (λ e. le now e.1.0) c.items)
