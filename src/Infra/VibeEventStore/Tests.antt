-- ===== src/Infra/VibeEventStore/Tests.antt =====
-- A run of two or three events, with the times in thousandths of a second.
use pyharmonics_gpt.Prelude.{
  ℕ, zero, suc, ◌≡◌, refl, Option, none, some, List, [], ◌∷◌, String, filter, IsIn, drop, first, ℤ,
  pos, negsuc, arith, ◌+ℤ◌,
}
use pyharmonics_gpt.Dict.{lookup, contains, insert, erase, move_to_end}
use pyharmonics_gpt.Float.Fixed.{milli_float, milli_add}
use pyharmonics_gpt.Infra.MemoryCache.{get, set, delete, evict}
use pyharmonics_gpt.Infra.VibeEventStore.{
  Event, VibeEventStore, Post, or_empty, slice, last_of, next_seq, backfilled, receive, publish,
  after_id, fetch_all, fetch_range, get_events, clear,
}
use pyharmonics_gpt.Infra.VibeEventStore.Log.{before, log_from, publish_all}
use pyharmonics_gpt.Infra.VibeEventStore.Numbering.{KeepsSeq, is_after}
use pyharmonics_gpt.Infra.VibeEventStore.Polling.{
  IsNew, get_events-publish_all, get_events_complete, get_events-loses, get_events-after_event_id,
}

-- a schema that refuses an event with the body 0
unfoldable accept : ℕ → Event ℕ → Option (Event ℕ)
accept zero ev = none
accept (suc body) ev = some ev

abbrev schema : Event ℕ → Option (Event ℕ)
schema ev = accept ev.body ev

abbrev store : VibeEventStore ℤ ℕ
store = record { memory = record { max_size = 2; ttl_seconds = 60; items = [] }; seq_memory = [] }

abbrev post : String → ℕ → ℕ → Post ℤ ℕ
post fresh_id body at = record {
  event = record { event_id = none; run_id = none; ts = none; seq = none; body = body };
  fresh_id = fresh_id;
  utc_now = "now";
  read_at = pos at;
  written_at = pos at;
}

abbrev sent : String → ℕ → ℕ → Event ℕ
sent id seq body = record {
  event_id = some id;
  run_id = some "r";
  ts = some "now";
  seq = some seq;
  body = body;
}

abbrev posts : List (Post ℤ ℕ)
posts = post "a" 7 1_000 ∷ post "b" 8 2_000 ∷ post "c" 9 3_000 ∷ []

store-IsNew : IsNew "r" store
unfolding lookup
store-IsNew = record {
  valid = record { positive = omega arith; bounded = omega arith; distinct = tt };
  no_counter = refl;
  no_events = refl;
}

accept-seq : (body : ℕ) (ev v : Event ℕ) → accept body ev ≡ some v → v.seq ≡ ev.seq
unfolding accept
accept-seq zero ev v e = absurd (ground (arith, e))
accept-seq (suc body) ev v e = ground (arith, e)

schema-KeepsSeq : KeepsSeq schema
schema-KeepsSeq ev v e = accept-seq ev.body ev v e

polled :
    (get_events (pos 4_000) "r" none (some (pos 0)) none 50 (publish_all schema "r" posts store)).0
    ≡ sent "b" 1 8 ∷ sent "c" 2 9 ∷ []
unfolding get_events fetch_range slice publish_all publish receive backfilled next_seq accept get
    set lookup contains insert erase move_to_end evict milli_add ◌+ℤ◌
polled = refl

from_the_end :
    (get_events
      (pos 4_000)
      "r"
      none
      (some (negsuc 2))
      none
      50
      (publish_all schema "r" posts store)).0
    ≡ sent "b" 1 8 ∷ sent "c" 2 9 ∷ []
unfolding get_events fetch_range slice publish_all publish receive backfilled next_seq accept get
    set lookup contains insert erase move_to_end evict milli_add ◌+ℤ◌
from_the_end = refl

cleared :
    (get_events
      (pos 4_000)
      "r"
      (some "a")
      none
      none
      50
      (clear "r" (publish_all schema "r" posts store))).0
    ≡ []
unfolding get_events fetch_all after_id last_of clear publish_all publish receive backfilled
    next_seq accept get set delete lookup contains insert erase move_to_end evict milli_add
cleared = refl

get_events-publish_all_example :
    (get_events (pos 4_000) "r" none (some (pos 0)) none 50 (publish_all schema "r" posts store)).0
    ≡ first 50 (drop 1 (log_from schema "r" 0 posts))
unfolding milli_add
get_events-publish_all_example =
    get_events-publish_all schema "r" posts (pos 4_000) store 0 50 none none store-IsNew
      ((refl, (refl, refl)), ((refl, refl), (refl, tt)))

get_events_complete_example :
    (get_events (pos 4_000) "r" none (some (pos 0)) none 50 (publish_all schema "r" posts store)).0
    ≡ first 50 (filter (is_after 0) (log_from schema "r" 0 posts))
unfolding milli_add accept backfilled
get_events_complete_example =
    get_events_complete schema "r" posts (pos 4_000) store 0 50 none none store-IsNew
      ((refl, (refl, refl)), ((refl, refl), (refl, tt))) schema-KeepsSeq
      (refl, (sent "a" 0 7, refl), (refl, (sent "b" 1 8, refl), (refl, (sent "c" 2 9, refl), tt)))

abbrev later_posts : List (Post ℤ ℕ)
later_posts = post "b" 8 2_000 ∷ post "c" 9 3_000 ∷ []

get_events-loses_example :
    let end = publish_all schema "r" (post "a" 0 1_000 ∷ later_posts) store in
    ((get_events (pos 4_000) "r" none (some (pos 1)) none 50 end).0 ≡ [])
    × ((lost : Event ℕ) × IsIn lost (or_empty (get (pos 4_000) "r" end.memory).0)
        × (lost.seq ≡ some 2))
unfolding milli_add accept backfilled
get_events-loses_example =
    get_events-loses schema "r" (post "a" 0 1_000) later_posts (pos 4_000) store 1 50 none none
      store-IsNew ((refl, (refl, refl)), ((refl, refl), (refl, tt))) schema-KeepsSeq refl
      (refl, (sent "b" 1 8, refl), (refl, (sent "c" 2 9, refl), tt)) refl

get_events-after_event_id_example :
    (get_events (pos 4_000) "r" (some "a") none none 1 (publish_all schema "r" posts store)).0
    ≡ drop 1 (sent "b" 1 8 ∷ sent "c" 2 9 ∷ [])
unfolding milli_add log_from before accept backfilled
get_events-after_event_id_example =
    get_events-after_event_id schema "r" posts (pos 4_000) store "a" (sent "a" 0 7) []
      (sent "b" 1 8 ∷ sent "c" 2 9 ∷ []) 0 none store-IsNew
      ((refl, (refl, refl)), ((refl, refl), (refl, tt))) refl tt refl
