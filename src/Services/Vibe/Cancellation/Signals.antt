-- ===== src/Services/Vibe/Cancellation/Signals.antt =====
-- A registered run while calls on other runs are made in its process.
use pyharmonics_gpt.Prelude.{
  ℕ, ◌<◌, ◌≡◌, ◌≢◌, ◌||◌, ap, Bool, false, Option, none, some, List, [], ◌∷◌, String, eq_iff,
  eq_refl, arith,
}
use pyharmonics_gpt.Dict.{
  lookup, HasDistinctKeys, lookup-insert, lookup-erase, insert-HasDistinctKeys,
  erase-HasDistinctKeys,
}
use pyharmonics_gpt.Services.Vibe.Cancellation.{
  Redis, Process, get_redis, signal, signal_if, register_run, get_token, set, cancel_run,
  unregister_run,
}

-- A call with whether Redis can be reached in it.
pub data Call : Type 0 where
  register_call cancel_call unregister_call : Bool → String → Call

abbrev pub run_of : Call → String
run_of (register_call reachable run_id) = run_id
run_of (cancel_call reachable run_id) = run_id
run_of (unregister_call reachable run_id) = run_id

abbrev pub AreOnOthers : String → List Call → Type 0
AreOnOthers run_id [] = Unit
AreOnOthers run_id (call ∷ calls) = (run_of call ≢ run_id) × AreOnOthers run_id calls

-- The run has this event, which no other run has, and which is not set.
pub record Waits (run_id : String) (event : ℕ) (p : Process) : Type 0 where
  pub distinct : HasDistinctKeys p.run_events
  pub here : lookup run_id p.run_events ≡ some event
  pub no_other : (other : String) → other ≢ run_id → lookup other p.run_events ≢ some event
  pub is_old : event < p.made
  pub unset : p.is_signalled event ≡ false

-- Every event of the dict was made before, and no key stands twice.
pub record IsOrderly (p : Process) : Type 0 where
  pub distinct : HasDistinctKeys p.run_events
  pub old : (run_id : String) (event : ℕ) → lookup run_id p.run_events ≡ some event → event < p.made

signal_if-Waits :
    (run_id : String) (event : ℕ) (other : Option ℕ) (p : Process)
    → other ≢ some event
    → Waits run_id event p
    → Waits run_id event (signal_if other p)
unfolding signal_if signal
signal_if-Waits run_id event none p ne h = h
signal_if-Waits run_id event (some e) p ne h = record {
  distinct = h.distinct;
  here = h.here;
  no_other = h.no_other;
  is_old = h.is_old;
  unset = ground (arith, h.unset, ne, ap {A = ℕ} some {x = e} {y = event});
}

signal_if-IsOrderly : (other : Option ℕ) (p : Process) → IsOrderly p → IsOrderly (signal_if other p)
unfolding signal_if signal
signal_if-IsOrderly none p h = h
signal_if-IsOrderly (some e) p h = record { distinct = h.distinct; old = h.old }

module _ {R : Type 0} (redis : Redis R) (cancel_key : String → String) where
  unfoldable pub apply : Call → Process × R → Process × R
  apply (register_call reachable run_id) (p, r) = ((register_run reachable run_id p).1, r)
  apply (cancel_call reachable run_id) (p, r) =
      let (answer, q, after) = cancel_run redis cancel_key reachable run_id p r in (q, after)
  apply (unregister_call reachable run_id) (p, r) =
      unregister_run redis cancel_key reachable run_id p r

  unfoldable pub apply_all : List Call → Process × R → Process × R
  apply_all [] s = s
  apply_all (call ∷ calls) s = apply_all calls (apply call s)

  register-Waits :
      (reachable : Bool) (other run_id : String) (event : ℕ) (p : Process)
      → other ≢ run_id
      → Waits run_id event p
      → Waits run_id event (register_run reachable other p).1
  unfolding register_run get_redis
  register-Waits reachable other run_id event p ne h = record {
    distinct = insert-HasDistinctKeys other p.made p.run_events h.distinct;
    here =
        ground
          (arith, lookup-insert run_id other p.made p.run_events, h.here, eq_iff other run_id, ne);
    no_other = λ j ne' e.
        ground (arith, lookup-insert j other p.made p.run_events, h.no_other j ne', h.is_old, e);
    is_old = ground (arith, h.is_old);
    unset = ground (arith, h.is_old, h.unset);
  }

  cancel-Waits :
      (reachable : Bool) (other run_id : String) (event : ℕ) (p : Process) (r : R)
      → other ≢ run_id
      → Waits run_id event p
      → Waits run_id event (cancel_run redis cancel_key reachable other p r).1
  unfolding cancel_run get_token get_redis set
  cancel-Waits reachable other run_id event p r ne h =
      signal_if-Waits run_id event (lookup other p.run_events)
        (record p { has_client = p.has_client || reachable }) (h.no_other other ne)
        (record {
          distinct = h.distinct;
          here = h.here;
          no_other = h.no_other;
          is_old = h.is_old;
          unset = h.unset;
        })

  unregister-Waits :
      (reachable : Bool) (other run_id : String) (event : ℕ) (p : Process) (r : R)
      → other ≢ run_id
      → Waits run_id event p
      → Waits run_id event (unregister_run redis cancel_key reachable other p r).0
  unfolding unregister_run get_redis
  unregister-Waits reachable other run_id event p r ne h = record {
    distinct = erase-HasDistinctKeys other p.run_events h.distinct;
    here =
        ground (
          arith,
          lookup-erase run_id other p.run_events h.distinct,
          h.here,
          eq_iff other run_id,
          ne,
        );
    no_other = λ j ne' e.
        ground (arith, lookup-erase j other p.run_events h.distinct, h.no_other j ne', e);
    is_old = h.is_old;
    unset = h.unset;
  }

  apply-Waits :
      (call : Call) (run_id : String) (event : ℕ) (s : Process × R)
      → run_of call ≢ run_id
      → Waits run_id event s.0
      → Waits run_id event (apply call s).0
  unfolding apply
  apply-Waits (register_call reachable other) run_id event (p, r) ne h =
      register-Waits reachable other run_id event p ne h
  apply-Waits (cancel_call reachable other) run_id event (p, r) ne h =
      cancel-Waits reachable other run_id event p r ne h
  apply-Waits (unregister_call reachable other) run_id event (p, r) ne h =
      unregister-Waits reachable other run_id event p r ne h

  pub apply_all-Waits :
      (calls : List Call) (run_id : String) (event : ℕ) (s : Process × R)
      → AreOnOthers run_id calls
      → Waits run_id event s.0
      → Waits run_id event (apply_all calls s).0
  unfolding apply_all
  apply_all-Waits [] run_id event s others h = h
  apply_all-Waits (call ∷ calls) run_id event s others h =
      apply_all-Waits calls run_id event (apply call s) others.1
        (apply-Waits call run_id event s others.0 h)

  -- the run that is registered waits, where the other runs have older events
  pub registered-Waits :
      (reachable : Bool) (run_id : String) (p : Process)
      → IsOrderly p
      → Waits run_id p.made (register_run reachable run_id p).1
  unfolding register_run get_redis
  registered-Waits reachable run_id p h = record {
    distinct = insert-HasDistinctKeys run_id p.made p.run_events h.distinct;
    here = ground (arith, lookup-insert run_id run_id p.made p.run_events, eq_refl run_id);
    no_other = λ j ne e.
        ground (
          arith,
          lookup-insert j run_id p.made p.run_events,
          h.old j p.made,
          eq_iff run_id j,
          ne,
          e,
        );
    is_old = omega arith;
    unset = ground arith;
  }

  -- every call keeps the process orderly
  pub apply-IsOrderly : (call : Call) (s : Process × R) → IsOrderly s.0 → IsOrderly (apply call s).0
  unfolding apply register_run cancel_run unregister_run get_token get_redis set
  apply-IsOrderly (register_call reachable j) (p, r) h = record {
    distinct = insert-HasDistinctKeys j p.made p.run_events h.distinct;
    old = λ i event e. ground (arith, lookup-insert i j p.made p.run_events, h.old i event, e);
  }
  apply-IsOrderly (cancel_call reachable j) (p, r) h =
      signal_if-IsOrderly (lookup j p.run_events)
        (record p { has_client = p.has_client || reachable })
        (record { distinct = h.distinct; old = h.old })
  apply-IsOrderly (unregister_call reachable j) (p, r) h = record {
    distinct = erase-HasDistinctKeys j p.run_events h.distinct;
    old = λ i event e. ground (arith, lookup-erase i j p.run_events h.distinct, h.old i event, e);
  }
