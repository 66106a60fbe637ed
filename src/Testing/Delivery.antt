-- ===== src/Testing/Delivery.antt =====
-- src/distributed_runtime/testing/finite.py: one delivery of a unit to its handler, `_invoke`.
-- `run_handler` is how the handler's call ends; a handler acts neither on the kit nor on its clock,
-- whose reading is `now`, in microseconds.
use ptf.Prelude.{ℕ, ◌+◌, suc, String, Bool, ◌==◌, Option, none, some, leb, if◌then◌else◌}
use ptf.Core.Enums.{ExecutionStatus}
use ptf.Core.Errors.{Result, ok, err}
use ptf.Core.Failure.{ErrorClass, Failure, as_dict, rate_limited_dict}
use ptf.Core.Json.{JsonValue, JsonFields}
use ptf.Core.Lifecycle.{CancellationSource, child, after, is_cancelled, reason}
use ptf.Finite.Context.{ExecutionContext, execution_context}
use ptf.Finite.Unit.{ExecutionUnit}
use ptf.State.Db.{seconds}
use ptf.Worker.Retry.{FinitePolicy, backoff_delay}

-- `class AttemptRecord`
pub record AttemptRecord : Type 0 where
  pub run_id : String
  pub execution_id : String
  pub unit_key : String
  pub attempt : ℕ
  pub status : ExecutionStatus
  pub result : Option JsonValue
  pub error : Option JsonValue
  pub duplicate : Bool

-- `class _UnitState`
pub record UnitState : Type 0 where
  pub unit : ExecutionUnit
  pub execution_id : String
  pub status : ExecutionStatus
  pub attempts : ℕ
  pub next_attempt_at : ℕ
  pub result : Option JsonValue

-- how a handler's call ends; `cancellation` is a `CancellationError`
pub data CallEnd : Type 0 where
  returned : JsonValue → CallEnd
  raised : Failure → CallEnd
  cancellation : String → CallEnd

abbrev pub type_and_message : String → String → JsonValue
type_and_message name message = JsonValue.object (
    JsonFields.field "type" (JsonValue.text name)
      (JsonFields.field "message" (JsonValue.text message) JsonFields.end))

-- `_error_details`
unfoldable pub error_details : Failure → JsonValue
unfolding as_dict
error_details (Failure.contract cls message details) = as_dict cls message details
error_details (Failure.rate_limited message retry_after details) = rate_limited_dict message details
error_details (Failure.unexpected name text) = type_and_message name text

-- what `_record` and `_finish` are called with
abbrev record_of :
    String
    → UnitState
    → Bool
    → ExecutionStatus
    → Option JsonValue
    → Option JsonValue
    → AttemptRecord
record_of run_id u duplicate status result error = record {
  run_id = run_id;
  execution_id = u.execution_id;
  unit_key = u.unit.unit_key;
  attempt = u.attempts;
  status = status;
  result = result;
  error = error;
  duplicate = duplicate;
}

-- `_finish`
unfoldable pub finish :
    String → UnitState → Bool → ExecutionStatus → JsonValue → AttemptRecord × UnitState
finish run_id u duplicate status error = (
  record_of run_id u duplicate status none (some error),
  if duplicate then u else (record u { status = status }),
)

-- `_retry`
unfoldable pub retry : String → UnitState → Bool → ℕ → JsonValue → AttemptRecord × UnitState
unfolding finish
retry run_id u duplicate retry_at error =
    if leb u.unit.max_attempts u.attempts
    then finish run_id u duplicate ExecutionStatus.dead_lettered error
    else (
      record_of run_id u duplicate ExecutionStatus.retry_scheduled none (some error),
      if duplicate
          then u
          else (record u { status = ExecutionStatus.retry_scheduled; next_attempt_at = retry_at }),
    )

module _ (policy : FinitePolicy) (now : ℕ) where
  -- the `except` clauses
  unfoldable pub failed : String → UnitState → Bool → Failure → AttemptRecord × UnitState
  unfolding finish retry error_details backoff_delay
  failed run_id u duplicate (Failure.contract ErrorClass.cancelled_execution message details) =
      finish run_id u duplicate ExecutionStatus.cancelled
        (error_details (Failure.contract ErrorClass.cancelled_execution message details))
  failed run_id u duplicate (Failure.contract ErrorClass.permanent_execution message details) =
      finish run_id u duplicate ExecutionStatus.failed
        (error_details (Failure.contract ErrorClass.permanent_execution message details))
  failed run_id u duplicate (Failure.rate_limited message retry_after details) =
      retry run_id u duplicate (now + retry_after)
        (error_details (Failure.rate_limited message retry_after details))
  failed run_id u duplicate failure =
      retry run_id u duplicate (now + backoff_delay u.attempts policy) (error_details failure)

  -- what follows the call
  unfoldable pub conclude : String → UnitState → Bool → CallEnd → AttemptRecord × UnitState
  unfolding failed
  conclude run_id u duplicate (CallEnd.returned result) = (
    record_of run_id u duplicate ExecutionStatus.succeeded (some result) none,
    if duplicate
        then u
        else (record u { status = ExecutionStatus.succeeded; result = some result }),
  )
  conclude run_id u duplicate (CallEnd.raised failure) = failed run_id u duplicate failure
  conclude run_id u duplicate (CallEnd.cancellation message) =
      finish run_id u duplicate ExecutionStatus.cancelled
        (type_and_message "CancellationError" message)

  module _ {H : Type 0} (run_handler : H → ExecutionContext → JsonFields → CallEnd) where
    -- `raise_if_cancelled`, and the call
    unfoldable pub call_handler : H → ExecutionContext → JsonFields → CallEnd
    call_handler handler context payload =
        if is_cancelled now context.cancellation
        then CallEnd.cancellation (elim (reason now context.cancellation) [
          | none ↦ "cancelled"
          | some text ↦ (if text == "" then "cancelled" else text)
        ])
        else run_handler handler context payload

    -- what follows the making of the context, for a unit whose attempt was counted
    unfoldable pub deliver_unit :
        String
        → CancellationSource
        → H
        → Bool
        → UnitState
        → Result ExecutionContext
        → Result AttemptRecord × UnitState
    unfolding conclude call_handler
    deliver_unit run_id source handler duplicate u (err e) = (err e, u)
    deliver_unit run_id source handler duplicate u (ok plain) =
        let context = record plain { cancellation = child none source } in
        let running = if duplicate then u else (record u { status = ExecutionStatus.running }) in
        let (made, after_call) =
          conclude run_id running duplicate (call_handler handler context u.unit.payload) in
        (ok made, after_call)

    -- `_invoke`, of a unit of a run with this source and this handler
    unfoldable pub invoke :
        String → CancellationSource → H → Bool → UnitState → Result AttemptRecord × UnitState
    unfolding execution_context deliver_unit
    invoke run_id source handler duplicate before =
        let u = record before { attempts = suc before.attempts } in
        let key =
          if u.unit.idempotency_key == "" then u.unit.unit_key else u.unit.idempotency_key in
        deliver_unit run_id source handler duplicate u (
          execution_context run_id u.execution_id u.attempts key
            (some (after now (seconds u.unit.timeout_seconds) none)))
