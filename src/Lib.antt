-- ===== src/Lib.antt =====
-- A model of the decision-making core of pyharmonics-gpt, a harmonic-pattern trading assistant.
--
-- The program and its parts. A Flask application (app/api, app/main.py) and a worker serve analyses
-- of price charts. app/domain holds the trading rules as pure functions over pandas frames,
-- app/services composes them with market data and language models, app/infra holds the caches,
-- stores and clients, and app/loop is a background search that mutates the tuning constants,
-- backtests each candidate, checks it, and keeps a Pareto front. The development covers the pure
-- rules and state machines of these parts.
--
-- Which file models what. Every function carries the source's name, without a leading underscore.
--   Config/Tuning.antt          app/config/tuning.py: the constants with `__post_init__`; Scopes.antt is
--                               the applied candidate and `TuningScope`, Fields.antt `to_dict` and
--                               `from_dict`.
--   Domain/Signals.antt         app/domain/signals.py: `compute_stop`, `compute_targets`, `net_rr`,
--                               `grade` and the zone, with their contracts, over the constants of
--                               app/config/tuning.py. Stops.antt, Targets.antt and Grades.antt are
--                               about these.
--   Domain/Validation.antt      app/domain/validation.py: `rejection_reason`, `filter_candidates` and
--                               the small verdicts. Filtering.antt and Verdicts.antt are about them.
--                               Frames.antt has the trap, volume and regime scores of a frame of
--                               candles, and Traps.antt is about the first.
--   Domain/RsiTrend.antt        app/domain/rsi_trend.py: `detect_signals`, `_signal_quality`. The
--                               indicator columns that `enrich` computes with pandas are fields of a
--                               row. Detection.antt is about the signals that come out.
--   Domain/RsiBacktest.antt     app/domain/rsi_trend_backtest.py: `_simulate_one` as a step on the
--                               local variables that its loop changes (OpenTrade), which goes on or
--                               exits (Bars.antt), and `run_backtest`. Exits.antt, Schedule.antt and
--                               Metrics.antt are about one trade, the sequence, and the figures.
--   Domain/RsiPlan.antt         app/domain/rsi_trend_plan.py: `evaluate_decision` layer by layer, and
--                               the scores and targets of a plan. Decisions.antt is about the
--                               decision.
--   Services/DisciplineFilters  app/services/discipline_filters.py: `evaluate` and its checks.
--                               Passing.antt is about a candidate that passes.
--   Services/SignalEngine       app/services/signal_engine.py: Confluence.antt has `confluence_score`;
--                               Scoring.antt `score_candidate`, which ends in an exception, a
--                               rejection or a signal (Verdict.antt), with what it reads and its
--                               helpers in Context.antt; Ranking.antt `rank_signals`,
--                               `apply_stability` and `build_signal`. Sound.antt, Best.antt and
--                               Origin.antt are about these three stages. What pandas computes of the
--                               frame is given.
--   Services/PositionManager    app/services/position_manager.py: `process_bar` as a function from
--                               the frozen `PositionState` to an outcome: a new state with actions,
--                               a ValueError of `__post_init__`, or a contract violation. Defs.antt
--                               has the value objects; Closing.antt, Bars.antt and Stops.antt are
--                               about sizes, outcomes and the stop.
--   Services/MacroBias.antt     app/services/macro_bias.py: `compute`, over the tuning constants of
--                               Config/Tuning.antt. Sizing.antt is about its multiplier.
--   Services/Vibe/Cancellation  app/services/vibe/cancellation.py: the events of a process, which have
--                               an identity, and the keys in Redis, whose commands are an interface.
--                               Signals.antt is about calls on other runs, Reach.antt about whom a
--                               cancellation reaches.
--   Infra/MemoryCache           app/infra/memory_cache.py: the OrderedDict is the list of its items,
--                               oldest first, and every method takes the reading of the clock that
--                               it makes. The lock makes each method one step, so that a history of
--                               the cache is a list of calls.
--   Infra/VibeEventStore.antt   app/infra/vibe_event_store.py in its memory mode, over the model of the
--                               cache; the validation by pydantic is a parameter. Log.antt is about
--                               what is kept of a run, Numbering.antt about lists of events, and
--                               Polling.antt about what a client that polls gets.
--   Loop/Pareto.antt            app/loop/pareto.py: `dominates`, `ParetoSet.add` and `from_metrics`.
--                               Dominance.antt, Front.antt and Worst.antt are about the order, the
--                               front, and the worst regime.
--   Loop/Scheduler              app/loop/scheduler.py: `next_wake_at` and all it calls. Calendar.antt
--                               has the naive datetime, History.antt the two readings of
--                               HISTORY.jsonl, given as its lines after `json.loads`, and
--                               Stamps.antt when reading their stamps does not raise.
--   Loop/Checker.antt           app/loop/checker.py: `check_candidate`; a flag is its data, before it
--                               is printed.
--   Loop/OosValidator           app/loop/oos_validator.py: `oos_validate`, without the texts of its
--                               reasons.
--   Loop/WalkForward            app/loop/walk_forward.py: `list_quarters`, `aggregate` and
--                               `walk_forward` over the results of the runs, which are given.
--   Loop/Mutation               app/loop/mutation.py: Attempts.antt has `_apply_one_mutation`,
--                               Clusters.antt `mutate_field` and all above it, DefaultMap.antt the
--                               default cluster map. The generator of random numbers is a parameter, as
--                               are `int(round(x))` on numbers and the test for an infinite x, on
--                               which it raises.
--   Loop/MakerChecker           app/loop/maker_checker/schemas.py: the contracts and the checks of
--                               each `__post_init__`; and arbiter.py: `Arbiter.resolve`, with the
--                               module's `resolve`. Acceptance.antt joins the checker and the arbiter.
--   Prelude, Float, Dict        shared: tests, lists, whole numbers; Python's float and dict.
--
-- Numbers. A float is a type with the operations that the source uses, as a parameter (Float/Defs).
-- What is assumed of it is named: the comparison laws of IEEE 754 (IsOrdered in Float/Laws, NaN
-- included), the bounds of sums and products of scores (IsUnitLaw in Float/Unit), the monotonicity of
-- rounding (IsRounded in Float/Rounding), or a hypothesis of the theorem. Float/Fixed gives numbers
-- in thousandths, for which the laws are proved, and at which the tests run. A Python int that is
-- never negative is a natural number, any other an integer. A datetime is a number of microseconds
-- since 0001-01-01, a Monday.
--
-- Bounds. The search for an active hour runs for the 48 rounds that the source's loop has, with the
-- source's fallback behind them; `mutate_field` makes the attempts that the source makes; no other
-- recursion is bounded by a count: the loops run over lists.
--
-- Not modelled: HTTP routes, authentication, the clients of Redis, Supabase, exchanges and language
-- models, files and logging, pandas and numpy computations, and the texts of messages; the Redis mode
-- of the event store; the driver of the search, which starts processes, and the agents of the
-- maker-checker, which call language models; the benchmark and the scripts, which run on stored data.
mod Prelude
pub mod Float
pub mod Dict
pub mod Config
pub mod Loop
pub mod Infra
pub mod Services
pub mod Domain
