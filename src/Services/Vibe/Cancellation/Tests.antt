-- ===== src/Services/Vibe/Cancellation/Tests.antt =====
-- Two runs, with a Redis that is a dict, in which no key expires.
use pyharmonics_gpt.Prelude.{
  ℕ, ◌≡◌, refl, true, false, none, some, [], ◌∷◌, String, eq_iff, eq_refl, arith, false≢true,
}
use pyharmonics_gpt.Dict.{Dict, lookup, contains, insert, erase, lookup-insert}
use pyharmonics_gpt.Services.Vibe.Cancellation.{
  Redis, Process, CancellationToken, register_run, is_set, cancel_run, unregister_run,
  cancel_in_redis, get_redis,
}
use pyharmonics_gpt.Services.Vibe.Cancellation.Signals.{cancel_call, register_call}
use pyharmonics_gpt.Services.Vibe.Cancellation.Reach.{
  after_calls, cancel_run-is_set, cancel_run-reaches_worker, cancel_run_claims,
}

abbrev server : Redis (Dict String)
server = record {
  setex = λ key ttl value r. some (insert key value r);
  exists = λ key r. some (contains key r);
  delete = λ key r. some (erase key r);
}

abbrev cancel_key : String → String
cancel_key run_id = run_id

abbrev empty_process : Process
empty_process = record {
  run_events = [];
  has_client = false;
  made = 0;
  is_signalled = λ event. false;
}

setex-exists :
    (key value : String) (ttl : ℕ) (r r' : Dict String)
    → server.setex key ttl value r ≡ some r'
    → server.exists key r' ≡ some true
unfolding contains
setex-exists key value ttl r r' e = ground (arith, lookup-insert key key value r, eq_refl key, e)

-- the key that is written is gone once the run is over
cleaned_up : (unregister_run server cancel_key true "a" empty_process (("a", "1") ∷ [])).1 ≡ []
unfolding unregister_run get_redis erase
cleaned_up = refl

fallback_writes : (cancel_in_redis server cancel_key true "a" empty_process []).0 ≡ true
unfolding cancel_in_redis get_redis insert
fallback_writes = refl

cancel_run-is_set_example :
    let token = (register_run false "a" empty_process).0 in
    let (q, r) =
      after_calls server cancel_key false "a"
        (register_call false "b" ∷ cancel_call false "b" ∷ [])
        empty_process
        [] in
    let (answer, q', r') = cancel_run server cancel_key false "a" q r in
    (token.local_event ≡ some 0)
    × (q.is_signalled 0 ≡ false)
    × (is_set server cancel_key token q' r' ≡ true)
unfolding lookup
cancel_run-is_set_example =
    cancel_run-is_set server cancel_key false false "a"
      (register_call false "b" ∷ cancel_call false "b" ∷ []) empty_process []
      (record { distinct = tt; old = λ run_id event e. absurd (ground (arith, e)) })
      ((λ p. false≢true ((eq_iff "b" "a").1 p)), ((λ p. false≢true ((eq_iff "b" "a").1 p)), tt))

abbrev worker_token : CancellationToken
worker_token = record { run_id = "a"; local_event = none; has_redis = true }

cancel_run-reaches_worker_example :
    let (answer, api, r) = cancel_run server cancel_key true "a" empty_process [] in
    is_set server cancel_key worker_token empty_process r ≡ true
unfolding insert
cancel_run-reaches_worker_example =
    cancel_run-reaches_worker server cancel_key setex-exists worker_token empty_process
      empty_process true [] (("a", "1") ∷ []) refl refl refl

cancel_run_claims_example :
    ((cancel_run server cancel_key true "a" empty_process []).0 ≡ true)
    × (cancel_run server cancel_key false "b" empty_process [] ≡ (true, empty_process, []))
unfolding lookup
cancel_run_claims_example =
    cancel_run_claims server cancel_key true "a" "b" empty_process empty_process [] [] refl refl
