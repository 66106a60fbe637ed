-- ===== src/Lib.antt =====
-- The distributed runtime: product code registers finite and continuous workloads, and the runtime
-- plans, dispatches and executes them over a PostgreSQL schema, `runtime_state`, that all its
-- processes share. Every process acts on the schema through repositories whose operations are one
-- statement or one transaction each, so the development models an operation as a function on the
-- database that returns a value or raises, and the interleaving of processes as a sequence of such
-- operations, by any callers with any arguments.
--
-- Which file models which part (paths from the repository's root; those that do not start with src/ are
-- below src/distributed_runtime):
--   Core/Enums, Core/Errors, Core/Failure: core/enums.py and core/errors.py; Failure holds what a
--     handler may raise. Core/Name: the pattern of runtime names. Core/Json, Core/Envelope: the
--     data of core/envelope.py and core/artifacts.py. Core/Artifact, Core/Wire, Core/Wire/Codec:
--     their checks and their form as dictionaries; Artifact/Trip and Wire/Trip take them through it.
--   Finite/Unit, Finite/Validate: src/distributed_runtime/finite/contracts.py, its units and
--     `validate_plan`; Finite/Drift proves what a plan check accepts.
--   State/Db: the tables of src/distributed_runtime/state/migrations. State/Tx: statements and
--     transactions, with roll-back on a raise. State/Steps: what a computation may do to the
--     database, statement by statement.
--   State/Finite/Runs, Plan, Claim, Attempt, Finalize: `FiniteStateStore` of
--     src/distributed_runtime/state/finite.py, one function per method. Exclusion, Encoding,
--     Fencing, Batch, Ending prove what single operations do; Change and Effects bound what each operation does to
--     the table of units; History is about all sequences of operations, and Held about those between
--     a claim and the first write under it.
--   State/Outbox: src/distributed_runtime/state/outbox.py; Outbox/Dedup, Sending and Drain.
--   State/Continuous/Deployments, Sync, Lease, Emit: `ContinuousStateStore` of
--     src/distributed_runtime/state/continuous.py. Exclusion, Fencing, Emission, Retire are about
--     single operations; Moves, Effects, History about all sequences of them.
--   State/Workers: src/distributed_runtime/state/workers.py; Workers/Liveness.
--   Continuous/Contracts, Discovery: continuous/contracts.py, the partitions, leases and contexts, and
--     the check of what a workload discovers.
--   Core/Lifecycle: src/distributed_runtime/core/lifecycle.py; Core/Shutdown proves what a graceful
--     shutdown does.
--   Worker/Retry: src/distributed_runtime/worker/retry.py and `FinitePolicy` of core/config.py;
--     Worker/Settle, Execute, Handle: src/distributed_runtime/worker/finite.py, from the recording of
--     an attempt up to the handling of a wake-up. Backoff, Outcome, Settled, Delivery and Unregistered
--     prove what they do.
--   Worker/Supervisor: src/distributed_runtime/worker/continuous.py, the table of tasks that a tick
--     of the supervisor reaps, fills and renews; Supervised, Renewing and Ticking prove what it
--     leaves, and Reading which rows it reads. No other process acts between the statements of a tick. Worker/Emitting: how a task of a
--     partition emits, through its context and the sinks.
--   Registry/Version, Workloads, Sinks: src/distributed_runtime/registry.py; Registry/Lookup and Modes.
--   Core/Config, Core/Config/Pools: core/config.py; Config/Capacity is about its accepted values.
--   Core/Identifier: core/identifiers.py. Core/Text: what the program uses of Python's texts.
--   Control/Admin, Client, Reconciler, Planner, Dispatcher: the modules of these names in
--     src/distributed_runtime/control; Control/Planning is `plan` of its planner. Holding and
--     Balance are about a pass of the reconciler, Intents and Storing about the storing of plans,
--     Preparing and Replanning about `plan`, Due and Wakeups about the enqueueing of retries, Releasing
--     and Draining about the draining of a deployment.
--   Testing/Delivery, FiniteKit, Outcomes, Requests, Redelivery: testing/finite.py, the in-memory kit
--     for product tests. Budget, Spending and Pending are about the loop of `run_pending`, Settling and
--     Redelivered about `redeliver`. Testing/Leases: `FakeLeaseManager` and `RecordingSink` of
--     testing/continuous.py; Fenced is about sequences of calls on the manager.
--   Prelude: tables as lists of rows, with the shapes of statement that the repositories issue.
--   Examples: concrete tables, and runs of the operations on them.
--
-- How the code is rendered: a table is a list of rows in insertion order, a nullable column an
-- Option, a timestamp a number of microseconds, and `now()` an argument of the operation. Integers
-- do not overflow. `ORDER BY` on a text takes the database's collation as an argument; SHA-256 and
-- the digest of a payload are arguments. `FOR UPDATE SKIP LOCKED` takes as an argument which rows
-- other transactions hold. All loops are over lists, but for `run_pending` of the test kit, whose fuel
-- is its number of steps: one more than the attempts that the ready and retried units have left, at
-- least one for each, is enough.
--
-- Not modelled: connections and the pool (state/engine.py), the migration runner, Google Cloud
-- adapters, the deploy service, logging, `ContinuousRuntimeTestKit`, and the JSON text of envelopes,
-- whose size is an argument. A float is kept by its `repr`; the JSON texts that the state layer stores
-- are kept as values, and `complete_attempt` refuses those with a float which is not finite. The call of a handler is an argument of the worker; so are `quote`,
-- `datetime.fromisoformat` and the printing of integers, which the standard library has.
pub mod Prelude
pub mod Core
pub mod Finite
pub mod Registry
pub mod State
pub mod Continuous
pub mod Worker
pub mod Control
pub mod Testing
pub mod Examples
