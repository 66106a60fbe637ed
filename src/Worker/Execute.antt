-- ===== src/Worker/Execute.antt =====
-- The execution of a claimed unit: `execute_claimed` of src/distributed_runtime/worker/finite.py.
-- `sha256` is the digest of a text, `monotonic` the
-- reading of the system clock, and `run_handler` what the call of a handler comes to, a timeout
-- included. While the handler runs, other connections may write: `meanwhile` is what they do.
use ptf.Prelude.{ℕ, String, Option, none, some, ◌==◌, if◌then◌else◌}
use ptf.Core.Enums.{WorkloadMode}
use ptf.Core.Errors.{Result, ok, err, assertion_error}
use ptf.Core.Json.{JsonFields}
use ptf.Core.Lifecycle.{after}
use ptf.Finite.Context.{ExecutionContext, execution_context}
use ptf.Finite.Unit.{execution_id}
use ptf.Registry.Workloads.{FiniteRegistration, WorkloadRegistration, RuntimeRegistry, workload}
use ptf.State.Db.{Db}
use ptf.State.Tx.{Tx, pure, lift, or_raise, ◌>>=◌}
use ptf.State.Finite.Runs.{get_run, request_of}
use ptf.State.Finite.Claim.{ClaimedUnit}
use ptf.Worker.Retry.{FinitePolicy}
use ptf.Worker.Settle.{HandledUnit, Attempted, settle}

-- the fields of a `FiniteWorker`; the application is read by nothing
pub record FiniteWorker : Type 0 where
  pub instance_id : String
  pub policy : FinitePolicy
  pub pool_revision : Option String

-- `claimed.unit.idempotency_key or claimed.unit_key`
abbrev pub key_of : ClaimedUnit → String
key_of c = if c.unit.idempotency_key == "" then c.unit_key else c.unit.idempotency_key

module _ {P H W : Type 0} where
  -- `assert isinstance(registration, FiniteRegistration)`
  abbrev pub as_finite : WorkloadRegistration P H W → Result (FiniteRegistration P H)
  as_finite (WorkloadRegistration.finite r) = ok r
  as_finite (WorkloadRegistration.continuous r) = err assertion_error

  module _ {S : Type 0} (sha256 : String → String) (show_unexpected : String → String → String)
      (registry : RuntimeRegistry P H W S) (worker : FiniteWorker)
      (run_handler : H → ExecutionContext → JsonFields → Attempted) where
    -- what comes before the call of the handler: the handler, and the context of the attempt
    unfoldable pub prepare : ℕ → ClaimedUnit → Tx (H × ExecutionContext)
    unfolding get_run execution_context workload
    prepare monotonic c = do
      found ← get_run c.run_id
      run ← or_raise found assertion_error
      registration ←
          lift (workload run.workload_name run.workload_version WorkloadMode.finite registry)
      r ← lift (as_finite registration)
      context ← lift (
          execution_context c.run_id (execution_id sha256 c.unit (request_of run)) c.attempt
            (key_of c) (some (after monotonic c.unit.timeout_seconds none)))
      pure (r.handler, context)

    -- the call, and the recording of how it ended, `now` being the time of the record
    unfoldable pub attempt_unit :
        ℕ → (Db → Db) → ClaimedUnit → H × ExecutionContext → Tx HandledUnit
    unfolding settle
    attempt_unit now meanwhile c (handler, context) db =
        settle show_unexpected now worker.policy c context.execution_id
          (run_handler handler context c.unit.payload) (meanwhile db)

    -- `execute_claimed`
    unfoldable pub execute_claimed : ℕ → ℕ → (Db → Db) → ClaimedUnit → Tx HandledUnit
    unfolding prepare attempt_unit
    execute_claimed monotonic now meanwhile c = prepare monotonic c >>= attempt_unit now meanwhile c
