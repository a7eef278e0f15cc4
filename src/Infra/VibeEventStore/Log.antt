-- ===== src/Infra/VibeEventStore/Log.antt =====
-- What the store keeps of a run: the events that the schema accepts, in the order of their calls, with
-- the number of their call.
use pyharmonics_gpt.Prelude.{
  ℕ, suc, ◌+◌, ◌≡◌, refl, sym, append-nil, append_assoc, ap, ◌∙◌, subst, false, Option, none, some,
  List, [], ◌∷◌, ◌++◌, String, arith, eq_refl, Option-cases, inl, inr,
}
use pyharmonics_gpt.Dict.{Dict, lookup, lookup-insert}
use pyharmonics_gpt.Float.{Float, gt, add, lit}
use pyharmonics_gpt.Infra.MemoryCache.{MemoryCache, get, set}
use pyharmonics_gpt.Infra.MemoryCache.Invariant.{IsValid, get-IsValid, set-IsValid}
use pyharmonics_gpt.Infra.MemoryCache.Client.{get_call, apply, set_entry, ttl_seconds-apply}
use pyharmonics_gpt.Infra.VibeEventStore.{
  Event, VibeEventStore, Post, or_empty, next_seq, backfilled, receive, publish,
}

-- `events`, behind the event if there is one
unfoldable pub before : {A : Type 0} → Option A → List A → List A
before none events = events
before (some ev) events = ev ∷ events

module _ {F B : Type 0} ⦃d : Float F⦄ where
  -- the specification: the accepted events of the calls, which are numbered from `n` on
  unfoldable pub log_from :
      (Event B → Option (Event B)) → String → ℕ → List (Post F B) → List (Event B)
  unfolding before
  log_from validate run_id n [] = []
  log_from validate run_id n (p ∷ posts) =
      before (validate (backfilled run_id p.fresh_id p.utc_now n p.event))
        (log_from validate run_id (suc n) posts)

  unfoldable pub publish_all :
      (Event B → Option (Event B))
      → String
      → List (Post F B)
      → VibeEventStore F B
      → VibeEventStore F B
  publish_all validate run_id [] store = store
  publish_all validate run_id (p ∷ posts) store =
      publish_all validate run_id posts (publish validate run_id p store).1

  -- an entry written at `t` outlives the calls, and the reading `now` after them
  abbrev pub Outlives : ℕ → F → List (Post F B) → F → Type 0
  Outlives ttl t [] now = gt now (add t (lit ttl 0)) ≡ false
  Outlives ttl t (p ∷ posts) now =
      (gt p.read_at (add t (lit ttl 0)) ≡ false) × Outlives ttl t posts now

  -- no entry that is written expires before the reading `now`
  abbrev pub NoneExpires : ℕ → List (Post F B) → F → Type 0
  NoneExpires ttl [] now = Unit
  NoneExpires ttl (p ∷ posts) now = Outlives ttl p.written_at posts now × NoneExpires ttl posts now

  abbrev pub entry_of : ℕ → F → List (Event B) → Option (F × List (Event B))
  entry_of ttl t [] = none
  entry_of ttl t (ev ∷ events) = some (add t (lit ttl 0), ev ∷ events)

  -- the store has `n` calls behind it, and `events` kept, the last of them at `t`
  pub record Holds (run_id : String) (n : ℕ) (t : F) (events : List (Event B))
      (store : VibeEventStore F B) : Type 0 where
    pub counter : (next_seq run_id store.seq_memory).0 ≡ n
    pub valid : IsValid store.memory
    pub entry : lookup run_id store.memory.items ≡ entry_of store.memory.ttl_seconds t events

  -- the entry, if there is one, outlives the calls
  abbrev pub Survives : ℕ → F → List (Event B) → List (Post F B) → F → Type 0
  Survives ttl t [] posts now = Unit
  Survives ttl t (ev ∷ events) posts now = Outlives ttl t posts now

  counter-next :
      (run_id : String) (store : VibeEventStore F B)
      → (next_seq run_id (next_seq run_id store.seq_memory).1).0
        ≡ suc (next_seq run_id store.seq_memory).0
  unfolding next_seq
  counter-next run_id store =
      let nxt : ℕ = elim (lookup run_id store.seq_memory) [ none ↦ 0 | some n ↦ n + 1 ] in
      ground (arith, lookup-insert run_id run_id nxt store.seq_memory, eq_refl run_id)

  -- the entry, if there is one, has not expired at the reading
  abbrev pub IsFresh : ℕ → F → List (Event B) → F → Type 0
  IsFresh ttl t [] now = Unit
  IsFresh ttl t (ev ∷ events) now = gt now (add t (lit ttl 0)) ≡ false

  pub get-events :
      (now : F) (run_id : String) (t : F) (events : List (Event B))
      (c : MemoryCache F (List (Event B)))
      → lookup run_id c.items ≡ entry_of c.ttl_seconds t events
      → IsFresh c.ttl_seconds t events now
      → or_empty (get now run_id c).0 ≡ events
  unfolding get
  get-events now run_id t [] c e fresh = ground (arith, e)
  get-events now run_id t (ev ∷ events) c e fresh = ground (arith, e, fresh)

  entry_of-snoc :
      (ttl : ℕ) (t : F) (events : List (Event B)) (ev : Event B)
      → entry_of ttl t (events ++ ev ∷ []) ≡ some (add t (lit ttl 0), events ++ ev ∷ [])
  entry_of-snoc ttl t [] ev = refl
  entry_of-snoc ttl t (x ∷ events) ev = refl

  snoc_entry :
      (ttl : ℕ) (t : F) {seen events : List (Event B)} (ev : Event B)
      → seen ≡ events
      → some (add t (lit ttl 0), seen ++ ev ∷ []) ≡ entry_of ttl t (events ++ ev ∷ [])
  snoc_entry ttl t {events} ev e =
      ap (λ l. some (add t (lit ttl 0), l ++ ev ∷ [])) e ∙ sym (entry_of-snoc ttl t events ev)

  at_counter :
      (validate : Event B → Option (Event B)) (run_id : String) (p : Post F B) (n : ℕ)
      (o : Option (Event B)) (store : VibeEventStore F B)
      → (next_seq run_id store.seq_memory).0 ≡ n
      → validate (backfilled run_id p.fresh_id p.utc_now n p.event) ≡ o
      → (publish validate run_id p store).1
        ≡ receive run_id p (next_seq run_id store.seq_memory).1 store o
  unfolding publish
  at_counter validate run_id p n o store counter e =
      let seqs = (next_seq run_id store.seq_memory).1 in
      ap
        (λ m.
          receive run_id p seqs store (validate (backfilled run_id p.fresh_id p.utc_now m p.event)))
        counter
      ∙ ap (receive run_id p seqs store) e

  -- one call: an accepted event is put behind the others, a refused one changes only the number
  publish_accepted :
      (validate : Event B → Option (Event B)) (run_id : String) (p : Post F B) (n : ℕ) (t : F)
      (events : List (Event B)) (v : Event B) (store : VibeEventStore F B)
      → Holds run_id n t events store
      → IsFresh store.memory.ttl_seconds t events p.read_at
      → validate (backfilled run_id p.fresh_id p.utc_now n p.event) ≡ some v
      → Holds run_id (suc n) p.written_at (events ++ v ∷ []) (publish validate run_id p store).1
  publish_accepted validate run_id p n t events v store h fresh e =
      let after = (get p.read_at run_id store.memory).1 in
      let after-IsValid = get-IsValid p.read_at run_id store.memory h.valid in
      let written = or_empty (get p.read_at run_id store.memory).0 ++ v ∷ [] in
      let seen = get-events p.read_at run_id t events store.memory h.entry fresh in
      subst (Holds run_id (suc n) p.written_at (events ++ v ∷ []))
        (sym (at_counter validate run_id p n (some v) store h.counter e))
        (unfold receive in
          record {
            counter = counter-next run_id store ∙ ap suc h.counter;
            valid = set-IsValid p.written_at run_id written after after-IsValid;
            entry =
                (set_entry p.written_at run_id written after after-IsValid).0
                ∙ snoc_entry after.ttl_seconds p.written_at v seen;
          })

  publish_refused :
      (validate : Event B → Option (Event B)) (run_id : String) (p : Post F B) (n : ℕ) (t : F)
      (events : List (Event B)) (store : VibeEventStore F B)
      → Holds run_id n t events store
      → validate (backfilled run_id p.fresh_id p.utc_now n p.event) ≡ none
      → Holds run_id (suc n) t events (publish validate run_id p store).1
  publish_refused validate run_id p n t events store h e =
      subst (Holds run_id (suc n) t events)
        (sym (at_counter validate run_id p n none store h.counter e))
        (unfold receive in
          record {
            counter = counter-next run_id store ∙ ap suc h.counter;
            valid = h.valid;
            entry = h.entry;
          })

  ttl_seconds-receive :
      (run_id : String) (p : Post F B) (seqs : Dict ℕ) (store : VibeEventStore F B)
      (o : Option (Event B))
      → (receive run_id p seqs store o).memory.ttl_seconds ≡ store.memory.ttl_seconds
  unfolding receive
  ttl_seconds-receive run_id p seqs store none = refl
  ttl_seconds-receive run_id p seqs store (some v) =
      unfold set apply in ttl_seconds-apply (get_call p.read_at run_id) store.memory

  ttl_seconds-publish :
      (validate : Event B → Option (Event B)) (run_id : String) (p : Post F B)
      (store : VibeEventStore F B)
      → (publish validate run_id p store).1.memory.ttl_seconds ≡ store.memory.ttl_seconds
  unfolding publish
  ttl_seconds-publish validate run_id p store =
      ttl_seconds-receive run_id p (next_seq run_id store.seq_memory).1 store _

  -- the store has these events kept, and they can be read at `now`
  abbrev pub EndsWith : String → F → List (Event B) → VibeEventStore F B → Type 0
  EndsWith run_id now events store =
      (n : ℕ) × (t : F) × Holds run_id n t events store
      × IsFresh store.memory.ttl_seconds t events now

  still-IsFresh :
      (ttl : ℕ) (t now : F) (events : List (Event B))
      → Survives ttl t events [] now
      → IsFresh ttl t events now
  still-IsFresh ttl t now [] h = tt
  still-IsFresh ttl t now (ev ∷ events) h = h

  first-IsFresh :
      (ttl : ℕ) (t now : F) (events : List (Event B)) (p : Post F B) (posts : List (Post F B))
      → Survives ttl t events (p ∷ posts) now
      → IsFresh ttl t events p.read_at × Survives ttl t events posts now
  first-IsFresh ttl t now [] p posts h = (tt, tt)
  first-IsFresh ttl t now (ev ∷ events) p posts h = h

  Survives-snoc :
      (ttl : ℕ) (t now : F) (events : List (Event B)) (ev : Event B) (posts : List (Post F B))
      → Outlives ttl t posts now
      → Survives ttl t (events ++ ev ∷ []) posts now
  Survives-snoc ttl t now [] ev posts h = h
  Survives-snoc ttl t now (x ∷ events) ev posts h = h

  -- The events of the calls stand behind those that the store has kept.
  pub publish_all-EndsWith :
      (validate : Event B → Option (Event B)) (run_id : String) (posts : List (Post F B)) (n : ℕ)
      (t now : F) (events : List (Event B)) (store : VibeEventStore F B)
      → Holds run_id n t events store
      → Survives store.memory.ttl_seconds t events posts now
      → NoneExpires store.memory.ttl_seconds posts now
      → EndsWith run_id now
          (events ++ log_from validate run_id n posts)
          (publish_all validate run_id posts store)
  unfolding publish_all log_from before
  publish_all-EndsWith validate run_id [] n t now events store h alive soon =
      subst (λ l. EndsWith run_id now l store) (sym (append-nil events))
        (n, t, h, still-IsFresh _ t now events alive)
  publish_all-EndsWith validate run_id (p ∷ posts) n t now events store h alive soon =
      let ttl = ttl_seconds-publish validate run_id p store in
      let (fresh, later) = first-IsFresh _ t now events p posts alive in
      let rest = log_from validate run_id (suc n) posts in
      let store' = (publish validate run_id p store).1 in
      let end = publish_all validate run_id posts store' in
      elim (Option-cases (validate (backfilled run_id p.fresh_id p.utc_now n p.event))) [
        | inl e ↦
            subst (λ o. EndsWith run_id now (events ++ before o rest) end) (sym e)
              (publish_all-EndsWith validate run_id posts (suc n) t now events store'
                (publish_refused validate run_id p n t events store h e)
                (subst (λ s. Survives s t events posts now) (sym ttl) later)
                (subst (λ s. NoneExpires s posts now) (sym ttl) soon.1))
        | inr (v, e) ↦
            subst (λ o. EndsWith run_id now (events ++ before o rest) end) (sym e)
              (subst (λ l. EndsWith run_id now l end) (append_assoc events (v ∷ []) rest)
                (publish_all-EndsWith validate run_id posts (suc n) p.written_at now
                  (events ++ v ∷ []) store'
                  (publish_accepted validate run_id p n t events v store h fresh e)
                  (subst (λ s. Survives s p.written_at (events ++ v ∷ []) posts now) (sym ttl)
                    (Survives-snoc _ p.written_at now events v posts soon.0))
                  (subst (λ s. NoneExpires s posts now) (sym ttl) soon.1)))
      ]
