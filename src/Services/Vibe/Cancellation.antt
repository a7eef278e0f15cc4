-- ===== src/Services/Vibe/Cancellation.antt =====
-- app/services/vibe/cancellation.py: what one process keeps of its runs, and the keys in Redis, which
-- other processes see. A threading.Event is an object with an identity, since a token and the dict
-- share it: it is a number, and the process knows which of them are set.
pub mod Signals
pub mod Reach
mod Tests
use pyharmonics_gpt.Prelude.{
  ℕ, suc, ◌+◌, ◌==◌, Bool, true, false, ◌&&◌, ◌||◌, Option, none, some, List, [], ◌∷◌, String,
  if◌then◌else◌,
}
use pyharmonics_gpt.Dict.{Dict, lookup, insert, erase}

-- The commands of redis-py that the module uses, on a server in some state; `none` is an exception.
pub record Redis (R : Type 0) : Type 0 where
  pub setex : String → ℕ → String → R → Option R
  pub exists : String → R → Option Bool
  pub delete : String → R → Option R

pub record Process : Type 0 where
  -- _RUN_EVENTS, and whether _redis_client is there
  pub run_events : Dict ℕ
  pub has_client : Bool
  -- the number of events that were made, and those that are set
  pub made : ℕ
  pub is_signalled : ℕ → Bool

pub record CancellationToken : Type 0 where
  pub run_id : String
  pub local_event : Option ℕ
  pub has_redis : Bool

abbrev pub cancel_key_ttl_seconds : ℕ
cancel_key_ttl_seconds = 3600

-- `_get_redis`, where `reachable` says that redis is installed, REDIS_URL is set, and the ping succeeds
unfoldable pub get_redis : Bool → Process → Bool × Process
get_redis reachable p =
    let found = p.has_client || reachable in (found, record p { has_client = found })

-- `event.set()`
unfoldable pub signal : ℕ → Process → Process
signal event p = record p {
  is_signalled = λ other. if event == other then true else p.is_signalled other;
}

-- `if self._local_event is not None: self._local_event.set()`
unfoldable pub signal_if : Option ℕ → Process → Process
unfolding signal
signal_if none p = p
signal_if (some event) p = signal event p

unfoldable pub register_run : Bool → String → Process → CancellationToken × Process
unfolding get_redis insert
register_run reachable run_id p =
    let (has_redis, q) = get_redis reachable p in
    let event = q.made in
    (
      record { run_id = run_id; local_event = some event; has_redis = has_redis },
      record q {
        run_events = insert run_id event q.run_events;
        made = suc event;
        is_signalled = λ other. if event == other then false else q.is_signalled other;
      },
    )

-- The token that is returned even where the run has no event.
unfoldable pub get_token : Bool → String → Process → Option CancellationToken × Process
unfolding get_redis lookup
get_token reachable run_id p =
    let (has_redis, q) = get_redis reachable p in
    (
      some (record {
        run_id = run_id;
        local_event = lookup run_id p.run_events;
        has_redis = has_redis;
      }),
      q,
    )

module _ {R : Type 0} (redis : Redis R) (cancel_key : String → String) where
  abbrev pub or_unchanged : Option R → R → R
  or_unchanged none r = r
  or_unchanged (some after) r = after

  -- `CancellationToken.set`; an exception of Redis is logged
  unfoldable pub set : CancellationToken → Process → R → Process × R
  unfolding signal_if
  set token p r = (
    signal_if token.local_event p,
    (if token.has_redis
        then or_unchanged (redis.setex (cancel_key token.run_id) cancel_key_ttl_seconds "1" r) r
        else r),
  )

  unfoldable pub is_set : CancellationToken → Process → R → Bool
  is_set token p r =
      (elim token.local_event [ none ↦ false | some event ↦ p.is_signalled event ])
      || (token.has_redis && (elim (redis.exists (cancel_key token.run_id) r) [
        | none ↦ false
        | some found ↦ found
      ]))

  -- the fallback where there is no token
  unfoldable pub cancel_in_redis : Bool → String → Process → R → Bool × Process × R
  unfolding get_redis
  cancel_in_redis reachable run_id p r =
      let (has_redis, q) = get_redis reachable p in
      if has_redis
      then elim (redis.setex (cancel_key run_id) cancel_key_ttl_seconds "1" r) [
        | none ↦ (false, q, r)
        | some after ↦ (true, q, after)
      ]
      else (false, q, r)

  unfoldable pub cancel_run : Bool → String → Process → R → Bool × Process × R
  unfolding get_token set cancel_in_redis
  cancel_run reachable run_id p r =
      let (found, q) = get_token reachable run_id p in
      elim found [
        | none ↦ cancel_in_redis reachable run_id q r
        | some token ↦ let (after, server) = set token q r in (true, after, server)
      ]

  unfoldable pub unregister_run : Bool → String → Process → R → Process × R
  unfolding get_redis erase
  unregister_run reachable run_id p r =
      let (has_redis, q) =
        get_redis reachable (record p { run_events = erase run_id p.run_events }) in
      (q, if has_redis then or_unchanged (redis.delete (cancel_key run_id) r) r else r)
