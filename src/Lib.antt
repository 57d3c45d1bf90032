-- ===== src/Lib.antt =====
-- The core of the grid engine: the exact decimal arithmetic, the risk gate and the risk decision, the
-- registry of order intents, the coordinator that sends and reconciles them, the identity and ownership
-- of orders, the states of the grid's levels and the persistence latch, with theorems about them.
--
-- How the parts interact. The risk engine (src/risk) reads one snapshot of the account, checks it, sums
-- the worst exposure in each direction and decides whether to continue, reduce or halt; the same sums
-- gate a batch of intents before it is sent. The registry keeps one record for each intent
-- (src/execution/intent-registry.ts), which follows it from the write-ahead entry to its end. The
-- coordinator (src/execution/coordinator.ts) admits an intent, asks the exposure gate, writes the
-- registry, sends through the fence and records the outcome; it resolves what it does not know from
-- venue lookups, reads the open orders and the executions, and asks the risk engine and the halt record
-- for the grant to increase risk (src/execution/continuation.ts). Identity
-- and ownership (src/domain) say which orders on the venue are the engine's own. The level states
-- (src/strategy) and the latch (src/persistence) restrict what may follow what.
--
-- Which file models which part:
--   Math/DecimalJs, Math/Order      the package decimal.js, a parameter, and what is assumed of its cmp
--   Math/Decimal                    src/math/decimal.ts: parseDecimalString, decimalCmp, quantize, ...
--   Math/ExactDecimal               src/math/exact-decimal.ts: exactAdd, exactSub, exactMul
--   Risk/Types, Risk/ReasonCodes    src/risk/risk-types.ts; the sort of the codes in risk-engine.ts
--   Risk/Validation                 src/risk/risk-input-validation.ts: validateRiskInput and its parts
--   Risk/Freshness                  src/risk/freshness.ts: freshnessFailures
--   Risk/Exposure                   src/risk/exposure.ts: computeExposure; each loop's body is a function
--                                   on the totals (add_order, add_reservation, add_intent)
--   Risk/PlannedExposure            src/risk/exposure.ts: plannedExposureDecision
--   Risk/Limits                     src/risk/risk-engine.ts: computeDailyPnl, computeStartDrawdown,
--                                   computeBoundary
--   Risk/Engine, Risk/Evaluate      src/risk/risk-engine.ts: evaluateRisk, with the codes of each check as
--                                   a function and the checks' values in the record Checked
--   Execution/IntentStatus, Intents, Executions, RegistryState, Registry
--                                   src/execution/intent-registry.ts: placeIntentProblem,
--                                   normalizeExecutions and the methods of IntentRegistry that change it;
--                                   perform is one call, and a Map is the list of its entries (Base/Maps)
--   Execution/Ports                 src/execution/ports.ts and the results of src/domain/types.ts
--   Execution/Observations          the comparisons of src/execution/coordinator.ts: orderMatchesIntent,
--                                   executionMatchesIntent, sumQuantities, exceedsLimit, ...
--   Execution/Screening, PlaceLookup, CancelLookup
--                                   screenExecutions, evaluateLookup, evaluateCancelLookup
--   Execution/CoordinatorState      the coordinator's fields, its blockers, the stream's sequence
--   Execution/Steps                 an operation as a function of the machine: the coordinator, the world
--                                   outside and the trace of writes and sends; Steps/Rules reasons on it
--   Execution/Admission, Submission exposureProblem, admissionProblem; submitExclusive, sendPlace,
--                                   submitBatchExclusive, applyPlaceOutcome; Submission/Budget counts the
--                                   sends in the trace, Admission/Claims what the gate must count
--   Execution/Cancellation          cancelExclusive, applyCancelOutcome, revertCancel
--   Execution/Reconciliation        reconcileExclusive, recordProblem
--   Execution/Replay, Feed          planExecutions; replayExclusive, ingestExclusive, release
--   Execution/OpenOrders, OrderScan classifyOpenOrder, ownedDuplicates; scanExclusive, cleanupExclusive
--   Execution/Continuation          src/execution/continuation.ts: decideContinuation
--   Execution/Operations, Session   the public methods, and any sequence of them
--   Execution/Restart               src/execution/restart.ts
--   Execution/Sends                 what holds of every send over such a sequence
--   Domain/Levels, ScopeKey, OrderId src/domain/ids.ts, and the level tables of src/strategy/geometry.ts
--   Domain/Ownership, Duplicates    src/domain/ownership.ts: classifyOwnership,
--                                   planOwnedDuplicateCleanup
--   Strategy/LevelState             src/strategy/levelState.ts: assertTransition
--   Persistence/Latch               src/persistence/runtime-persistence-latch.ts
--   Base                            the shared vocabulary; Examples runs the definitions on values
--
-- Conventions. A string is the list of its UTF-16 code units (Text). A call that may throw returns an
-- Outcome, ok or err with the error; null is none. A field of a risk entry that the admission boundary
-- does not yet restrict is a Value. A call on the registry that throws gives no new state: the code
-- makes every check before its first change. Where the code compares canonical JSON of two flat records
-- of strings, the model compares the fields. A lookup keyed by a Map that the code casts to a record
-- throws where there is none.
--
-- Asynchrony. An operation runs while the stream may call in, so each awaited call of a port also gives
-- what arrived while it was pending, and the coordinator handles that before it goes on, as the event
-- loop does. A rejected promise is none. The fence is its two awaits, before and after the callback.
--
-- Parameters. decimal.js is the record DecimalJs, with its constructor, comparison, arithmetic and
-- rounding; IsNumericOrder states that its cmp orders values as numbers. SHA-256 and the fingerprint of
-- an intent are functions that the theorems take as arguments. The venue, the journal, the checkpoint
-- store, the fence and the other sources are the functions of Ports on a world of any type. What the
-- admission boundary (src/risk/risk-input-parser.ts) makes of an input of its type is the function
-- admit_risk_input of Deps.
--
-- Bounds and fuel. A loop over a list is structural recursion. A replay reads at most 100 pages, the
-- code's own limit. The loop of release takes the executions that arrived, which its own writes may
-- add to, so it has a bound on its turns, rounds; the theorems hold for every bound. Times, ages and
-- stream sequences are natural numbers, as BigInt in the code.
--
-- Not modelled: the admission boundary that reads JSON bytes (its result is the argument of
-- evaluate_risk), the diagnostic text, the counters that tests read, the registry's reads, export and
-- import, the reading of raw stream fields, the coordinator's plain reads, the geometry's prices and
-- the market rules, the implementations of the ports, the durable stores and leases, halt control, the
-- simulator and telemetry: they are planned, or are input and output only.
pub mod Base
pub mod Domain
pub mod Math
pub mod Strategy
pub mod Persistence
pub mod Risk
pub mod Execution
pub mod Examples
