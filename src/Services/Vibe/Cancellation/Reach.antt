-- ===== src/Services/Vibe/Cancellation/Reach.antt =====
-- Whom a cancellation reaches.
use pyharmonics_gpt.Prelude.{
  ℕ, ◌≡◌, refl, Bool, true, false, ◌||◌, Option, none, some, List, String, arith,
}
use pyharmonics_gpt.Dict.{lookup}
use pyharmonics_gpt.Services.Vibe.Cancellation.{
  Redis, Process, CancellationToken, cancel_key_ttl_seconds, get_redis, signal, signal_if,
  register_run, get_token, set, is_set, cancel_run,
}
use pyharmonics_gpt.Services.Vibe.Cancellation.Signals.{
  Call, AreOnOthers, IsOrderly, apply_all, apply_all-Waits, registered-Waits,
}

module _ {R : Type 0} (redis : Redis R) (cancel_key : String → String) where
  -- the process in which the run is registered, after the calls on others
  abbrev pub after_calls : Bool → String → List Call → Process → R → Process × R
  after_calls reachable run_id calls p r =
      apply_all redis cancel_key calls ((register_run reachable run_id p).1, r)

  signalled_is_set :
      (token : CancellationToken) (event : ℕ) (o : Option ℕ) (q : Process) (r : R)
      → token.local_event ≡ some event
      → o ≡ some event
      → is_set redis cancel_key token (signal_if o q) r ≡ true
  unfolding is_set
  signalled_is_set token event o q r e e' = rw (e, e') (unfold signal_if signal in ground arith)

  -- In an orderly process a run is registered, and any calls on other runs follow, cancellations
  -- among them: the event of the run is not set. When the run itself is cancelled, the token that the
  -- registration gave is set, whatever Redis does.
  pub cancel_run-is_set :
      (reachable reachable' : Bool) (run_id : String) (calls : List Call) (p : Process) (r : R)
      → IsOrderly p
      → AreOnOthers run_id calls
      → let token = (register_run reachable run_id p).0 in
        let (q, server) = after_calls reachable run_id calls p r in
        let (answer, q', server') = cancel_run redis cancel_key reachable' run_id q server in
        (token.local_event ≡ some p.made)
        × (q.is_signalled p.made ≡ false)
        × (is_set redis cancel_key token q' server' ≡ true)
  unfolding cancel_run get_token get_redis set
  cancel_run-is_set reachable reachable' run_id calls p r orderly others =
      let s = after_calls reachable run_id calls p r in
      let waits =
        apply_all-Waits redis cancel_key calls run_id p.made _ others
          (registered-Waits redis cancel_key reachable run_id p orderly) in
      let local : (register_run reachable run_id p).0.local_event ≡ some p.made =
        unfold register_run in refl in
      (
        local,
        waits.unset,
        signalled_is_set (register_run reachable run_id p).0 p.made (lookup run_id s.0.run_events)
            (record (s.0) { has_client = s.0.has_client || reachable' }) _ local waits.here,
      )

  -- A run that is cancelled in one process is cancelled for a token in another process, if both have
  -- Redis, the key can be written, and Redis finds a key that was just written.
  pub cancel_run-reaches_worker :
      ((key value : String) (ttl : ℕ) (r r' : R)
        → redis.setex key ttl value r ≡ some r'
        → redis.exists key r' ≡ some true)
      → (token : CancellationToken) (worker api : Process) (reachable : Bool) (r r' : R)
      → token.has_redis ≡ true
      → (api.has_client || reachable) ≡ true
      → redis.setex (cancel_key token.run_id) cancel_key_ttl_seconds "1" r ≡ some r'
      → let (answer, api', server) = cancel_run redis cancel_key reachable token.run_id api r in
        is_set redis cancel_key token worker server ≡ true
  unfolding cancel_run get_token get_redis set is_set
  cancel_run-reaches_worker found token worker api reachable r r' e client written =
      let seen = found (cancel_key token.run_id) "1" cancel_key_ttl_seconds r r' written in
      ground (arith, e, client, written, seen)

  -- cancel_run answers True for every run and in every state; for a run that has no event in the
  -- process, without Redis, it does so though no event is set and nothing is written.
  pub cancel_run_claims :
      (reachable : Bool) (run_id other : String) (p q : Process) (r s : R)
      → lookup other q.run_events ≡ none
      → q.has_client ≡ false
      → ((cancel_run redis cancel_key reachable run_id p r).0 ≡ true)
        × (cancel_run redis cancel_key false other q s ≡ (true, q, s))
  unfolding cancel_run get_token get_redis set
  cancel_run_claims reachable run_id other p q r s none_there no_client =
      (refl, unfold signal_if in rw (none_there, no_client) refl)
