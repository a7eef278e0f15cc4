-- ===== src/Infra/VibeEventStore.antt =====
-- app/infra/vibe_event_store.py without Redis, which is its memory mode: the events of a run are a list
-- in the cache of app/infra/memory_cache.py, and the sequence numbers a dict. The validation by
-- pydantic, the reading of the clock and the fresh ids are parameters.
pub mod Log
pub mod Numbering
pub mod Polling
mod Tests
use pyharmonics_gpt.Prelude.{
  ℕ, zero, suc, ◌+◌, ◌-◌, Bool, true, false, drop, first, Option, none, some, List, [], ◌∷◌, ◌++◌,
  String, str_eq, length, ℤ, pos, negsuc, ◌+ℤ◌, if◌then◌else◌,
}
use pyharmonics_gpt.Dict.{Dict, lookup, insert, erase}
use pyharmonics_gpt.Float.{Float}
use pyharmonics_gpt.Infra.MemoryCache.{MemoryCache, get, set, delete}

-- An event, a dict: the keys that the store reads or sets, and the others.
pub record Event (B : Type 0) : Type 0 where
  pub event_id : Option String
  pub run_id : Option String
  pub ts : Option String
  pub seq : Option ℕ
  pub body : B

pub record VibeEventStore (F B : Type 0) : Type 0 where
  pub memory : MemoryCache F (List (Event B))
  pub seq_memory : Dict ℕ

-- A call of `publish` with what it reads outside: the fresh id, the time as a text, and the clock of
-- the cache, when the list is read and when it is stored again.
pub record Post (F B : Type 0) : Type 0 where
  pub event : Event B
  pub fresh_id : String
  pub utc_now : String
  pub read_at : F
  pub written_at : F

-- `dict.setdefault`
abbrev pub or_default : {A : Type 0} → Option A → A → A
or_default none x = x
or_default (some y) x = y

-- `events[start:stop]`, where a negative index counts from the end
abbrev pub index_of : ℕ → ℤ → ℕ
index_of size (pos i) = i
index_of size (negsuc i) = size - suc i

unfoldable pub slice : {A : Type 0} → ℤ → ℤ → List A → List A
slice start stop xs =
    first (index_of (length xs) stop - index_of (length xs) start)
      (drop (index_of (length xs) start) xs)

-- `xs[-limit:]`, which is the whole list for a limit of 0
unfoldable pub last_of : {A : Type 0} → ℕ → List A → List A
last_of zero xs = xs
last_of (suc n) xs = drop (length xs - suc n) xs

-- the number, and the counters after it
unfoldable pub next_seq : String → Dict ℕ → ℕ × Dict ℕ
unfolding lookup insert
next_seq run_id seqs =
    let nxt : ℕ = elim (lookup run_id seqs) [ none ↦ 0 | some n ↦ n + 1 ] in
    (nxt, insert run_id nxt seqs)

-- a missing id and an empty one are replaced
abbrev pub id_or : Option String → String → String
id_or none fresh = fresh
id_or (some id) fresh = if str_eq id "" then fresh else id

-- `self._memory.get(run_id) or []`
abbrev pub or_empty : {A : Type 0} → Option (List A) → List A
or_empty none = []
or_empty (some events) = events

-- `ev.get("event_id") == after_event_id`
abbrev pub has_id : String → Option String → Bool
has_id id none = false
has_id id (some event_id) = str_eq event_id id

module _ {B : Type 0} where
  -- the event as it is validated; a key that holds None is one with a missing key, which `setdefault`
  -- would tell apart
  unfoldable pub backfilled : String → String → String → ℕ → Event B → Event B
  backfilled run_id fresh_id utc_now nxt event = record {
    event_id = some (id_or event.event_id fresh_id);
    run_id = some run_id;
    ts = some (or_default event.ts utc_now);
    seq = some (or_default event.seq nxt);
    body = event.body;
  }

  -- the loop of the cursor by id
  unfoldable pub after_id : String → Bool → List (Event B) → List (Event B)
  after_id id found [] = []
  after_id id true (ev ∷ events) = ev ∷ after_id id true events
  after_id id false (ev ∷ events) = after_id id (has_id id ev.event_id) events

module _ {F B : Type 0} ⦃d : Float F⦄ where
  -- what comes after the validation: an event that the schema refuses is dropped
  unfoldable pub receive :
      String → Post F B → Dict ℕ → VibeEventStore F B → Option (Event B) → VibeEventStore F B
  unfolding get set
  receive run_id p seqs store none = record store { seq_memory = seqs }
  receive run_id p seqs store (some validated) =
      let (found, memory) = get p.read_at run_id store.memory in
      record {
        memory = set p.written_at run_id (or_empty found ++ validated ∷ []) memory;
        seq_memory = seqs;
      }

  -- the id, and the store
  unfoldable pub publish :
      (Event B → Option (Event B))
      → String
      → Post F B
      → VibeEventStore F B
      → String × VibeEventStore F B
  unfolding next_seq backfilled receive
  publish validate run_id p store =
      let (nxt, seqs) = next_seq run_id store.seq_memory in
      let event = backfilled run_id p.fresh_id p.utc_now nxt p.event in
      (or_default event.event_id "", receive run_id p seqs store (validate event))

  unfoldable pub fetch_all : F → String → VibeEventStore F B → List (Event B) × VibeEventStore F B
  unfolding get
  fetch_all now run_id store =
      let (found, memory) = get now run_id store.memory in
      (or_empty found, record store { memory = memory })

  unfoldable pub fetch_range :
      F → String → ℤ → ℤ → VibeEventStore F B → List (Event B) × VibeEventStore F B
  unfolding get slice
  fetch_range now run_id offset limit store =
      let (found, memory) = get now run_id store.memory in
      (slice offset (offset +ℤ limit) (or_empty found), record store { memory = memory })

  -- the cursors in their order; the limit is not negative
  unfoldable pub get_events :
      F
      → String
      → Option String
      → Option ℤ
      → Option ℤ
      → ℕ
      → VibeEventStore F B
      → List (Event B) × VibeEventStore F B
  unfolding fetch_all fetch_range after_id last_of
  get_events now run_id after_event_id (some after_seq) offset limit store =
      fetch_range now run_id (after_seq +ℤ pos 1) (pos limit) store
  get_events now run_id (some id) none offset limit store =
      let (events, after) = fetch_all now run_id store in
      (last_of limit (after_id id false events), after)
  get_events now run_id none none offset limit store =
      fetch_range now run_id (or_default offset (pos 0)) (pos limit) store

  unfoldable pub clear : String → VibeEventStore F B → VibeEventStore F B
  unfolding delete erase
  clear run_id store = record {
    memory = (delete run_id store.memory).1;
    seq_memory = erase run_id store.seq_memory;
  }
