-- ===== src/Infra/VibeEventStore/Polling.antt =====
-- What a client that polls gets of the events of a run.
use pyharmonics_gpt.Prelude.{
  ℕ, suc, ◌-◌, ◌≡◌, refl, sym, ap, ◌∙◌, subst, false, Option, none, some, List, [], ◌∷◌, ◌++◌,
  String, arith, length, filter, IsIn, drop, first, ℤ, pos, ◌+ℤ◌,
}
use pyharmonics_gpt.Dict.{lookup}
use pyharmonics_gpt.Float.{Float}
use pyharmonics_gpt.Infra.MemoryCache.{get}
use pyharmonics_gpt.Infra.MemoryCache.Invariant.{IsValid}
use pyharmonics_gpt.Infra.VibeEventStore.{
  Event, VibeEventStore, Post, or_default, or_empty, slice, last_of, next_seq, backfilled, after_id,
  fetch_all, fetch_range, get_events,
}
use pyharmonics_gpt.Infra.VibeEventStore.Log.{
  before, log_from, publish_all, NoneExpires, Holds, get-events, publish_all-EndsWith,
}
use pyharmonics_gpt.Infra.VibeEventStore.Numbering.{
  KeepsSeq, is_after, IsNumbered, HasNone, slice-first, drop_all, first_nil, drop-IsNumbered,
  last-IsNumbered, after_id-append,
}

module _ {F B : Type 0} ⦃d : Float F⦄ where
  -- no event of the run is there yet, nor its counter
  pub record IsNew (run_id : String) (store : VibeEventStore F B) : Type 0 where
    pub valid : IsValid store.memory
    pub no_counter : lookup run_id store.seq_memory ≡ none
    pub no_events : lookup run_id store.memory.items ≡ none

  new-Holds :
      (run_id : String) (t : F) (store : VibeEventStore F B)
      → IsNew run_id store
      → Holds run_id 0 t [] store
  new-Holds run_id t store h = record {
    counter = unfold next_seq in ground (arith, h.no_counter);
    valid = h.valid;
    entry = h.no_events;
  }

  read-log :
      (validate : Event B → Option (Event B)) (run_id : String) (posts : List (Post F B)) (now : F)
      (store : VibeEventStore F B)
      → IsNew run_id store
      → NoneExpires store.memory.ttl_seconds posts now
      → or_empty (get now run_id (publish_all validate run_id posts store).memory).0
        ≡ log_from validate run_id 0 posts
  read-log validate run_id posts now store new soon =
      let (n, t, h, fresh) =
        publish_all-EndsWith validate run_id posts 0 now now [] store
          (new-Holds run_id now store new) tt soon in
      get-events now run_id t _ (publish_all validate run_id posts store).memory h.entry fresh

  -- After any events have been published to a new run, and as long as none of the entries written
  -- expires, a poll with `after_seq` gets at most `limit` of the events that the schema accepted, in
  -- the order in which they were published, from the place `after_seq + 1` on.
  pub get_events-publish_all :
      (validate : Event B → Option (Event B)) (run_id : String) (posts : List (Post F B)) (now : F)
      (store : VibeEventStore F B) (k limit : ℕ) (cursor : Option String) (offset : Option ℤ)
      → IsNew run_id store
      → NoneExpires store.memory.ttl_seconds posts now
      → (get_events now run_id cursor
          (some (pos k))
          offset
          limit
          (publish_all validate run_id posts store)).0
        ≡ first limit (drop (suc k) (log_from validate run_id 0 posts))
  unfolding get_events fetch_range
  get_events-publish_all validate run_id posts now store k limit cursor offset new soon =
      ap (slice (pos k +ℤ pos 1) ((pos k +ℤ pos 1) +ℤ pos limit))
        (read-log validate run_id posts now store new soon)
      ∙ slice-first k limit (log_from validate run_id 0 posts)

  -- the schema accepts the event of each call, none of which comes with a number of its own
  abbrev pub AreAccepted : (Event B → Option (Event B)) → String → ℕ → List (Post F B) → Type 0
  AreAccepted validate run_id n [] = Unit
  AreAccepted validate run_id n (p ∷ posts) =
      (p.event.seq ≡ none)
      × ((v : Event B) × (validate (backfilled run_id p.fresh_id p.utc_now n p.event) ≡ some v))
      × AreAccepted validate run_id (suc n) posts

  log_from-IsNumbered :
      (validate : Event B → Option (Event B)) (run_id : String) (posts : List (Post F B)) (n : ℕ)
      → KeepsSeq validate
      → AreAccepted validate run_id n posts
      → IsNumbered n (log_from validate run_id n posts)
        × (length (log_from validate run_id n posts) ≡ length posts)
  unfolding log_from before backfilled
  log_from-IsNumbered validate run_id [] n keeps h = (tt, refl)
  log_from-IsNumbered validate run_id (p ∷ posts) n keeps (fresh, (v, e), rest) =
      let (numbered, size) = log_from-IsNumbered validate run_id posts (suc n) keeps rest in
      let seq : v.seq ≡ some n = keeps _ v e ∙ ap (λ s. some (or_default s n)) fresh in
      subst
        (λ o.
          IsNumbered n (before o (log_from validate run_id (suc n) posts))
          × (length (before o (log_from validate run_id (suc n) posts)) ≡ suc (length posts)))
        (sym e) ((seq, numbered), ap suc size)

  -- After events without numbers of their own have been published to a new run, if the schema accepts
  -- each of them and keeps its number, and as long as none of the entries written expires, a poll with
  -- `after_seq` gets the first `limit` of all the events with a greater number: none is missed.
  pub get_events_complete :
      (validate : Event B → Option (Event B)) (run_id : String) (posts : List (Post F B)) (now : F)
      (store : VibeEventStore F B) (k limit : ℕ) (cursor : Option String) (offset : Option ℤ)
      → IsNew run_id store
      → NoneExpires store.memory.ttl_seconds posts now
      → KeepsSeq validate
      → AreAccepted validate run_id 0 posts
      → (get_events now run_id cursor
          (some (pos k))
          offset
          limit
          (publish_all validate run_id posts store)).0
        ≡ first limit (filter (is_after k) (log_from validate run_id 0 posts))
  get_events_complete validate run_id posts now store k limit cursor offset new soon keeps
        all_accepted =
      let whole : suc k ≡ suc k - 0 = omega arith in
      get_events-publish_all validate run_id posts now store k limit cursor offset new soon
      ∙ ap (λ n. first limit (drop n (log_from validate run_id 0 posts))) whole
      ∙ ap (first limit)
          (drop-IsNumbered 0 k _ (log_from-IsNumbered validate run_id posts 0 keeps all_accepted).0)

  -- If the schema refuses the first event of a new run and accepts the others, which come without
  -- numbers of their own, keeps their numbers, and no entry expires, the list is one behind the numbers:
  -- a client that polls with the number of the last but one gets nothing, though the last event is kept
  -- and has a greater number.
  pub get_events-loses :
      (validate : Event B → Option (Event B)) (run_id : String) (p : Post F B)
      (posts : List (Post F B)) (now : F) (store : VibeEventStore F B) (k limit : ℕ)
      (cursor : Option String) (offset : Option ℤ)
      → IsNew run_id store
      → NoneExpires store.memory.ttl_seconds (p ∷ posts) now
      → KeepsSeq validate
      → validate (backfilled run_id p.fresh_id p.utc_now 0 p.event) ≡ none
      → AreAccepted validate run_id 1 posts
      → length posts ≡ suc k
      → ((get_events now run_id cursor
            (some (pos k))
            offset
            limit
            (publish_all validate run_id (p ∷ posts) store)).0
          ≡ [])
        × ((lost : Event B) × IsIn lost
              (or_empty (get now run_id (publish_all validate run_id (p ∷ posts) store).memory).0)
            × (lost.seq ≡ some (suc k)))
  get_events-loses validate run_id p posts now store k limit cursor offset new soon keeps refused
        all_accepted size =
      let kept_events = log_from validate run_id 1 posts in
      let log : log_from validate run_id 0 (p ∷ posts) ≡ kept_events =
        unfold log_from before in ap (λ o. before o kept_events) refused in
      let (numbered, same) = log_from-IsNumbered validate run_id posts 1 keeps all_accepted in
      let (lost, found, seq) = last-IsNumbered k 1 kept_events (same ∙ size) numbered in
      (
        get_events-publish_all validate run_id (p ∷ posts) now store k limit cursor offset new soon
            ∙ ap (λ l. first limit (drop (suc k) l)) log
            ∙ ap (first limit) (drop_all (suc k) kept_events (same ∙ size))
            ∙ first_nil limit,
        (
          lost,
          subst (IsIn lost) (sym (read-log validate run_id (p ∷ posts) now store new soon ∙ log))
              found,
          seq ∙ ap some (omega arith),
        ),
      )

  -- As long as no entry of a new run expires, a poll with the id of an event that is kept, which no
  -- earlier one has, and with a positive `limit` gets the last `limit` of the events behind it, not the
  -- first: if there are more than `limit`, the ones next to the cursor are passed over.
  pub get_events-after_event_id :
      (validate : Event B → Option (Event B)) (run_id : String) (posts : List (Post F B)) (now : F)
      (store : VibeEventStore F B) (id : String) (ev : Event B) (earlier later : List (Event B))
      (limit : ℕ) (offset : Option ℤ)
      → IsNew run_id store
      → NoneExpires store.memory.ttl_seconds posts now
      → log_from validate run_id 0 posts ≡ earlier ++ ev ∷ later
      → HasNone id earlier
      → ev.event_id ≡ some id
      → (get_events now run_id
          (some id)
          none
          offset
          (suc limit)
          (publish_all validate run_id posts store)).0
        ≡ drop (length later - suc limit) later
  unfolding get_events fetch_all last_of
  get_events-after_event_id validate run_id posts now store id ev earlier later limit offset new
        soon log no_other e =
      ap (λ l. last_of (suc limit) (after_id id false l))
        (read-log validate run_id posts now store new soon ∙ log)
      ∙ ap (last_of (suc limit)) (after_id-append id ev earlier later no_other e)
