-- ===== src/Testing/Budget.antt =====
-- src/distributed_runtime/testing/finite.py: the deliveries that a unit has left, and how a step uses
-- one of them up.
use ptf.Prelude.{ℕ, ◌-◌, ◌≤◌, ◌<◌, ◌≡◌, refl, leb, suc, String, true, false, arith, if◌then◌else◌}
use ptf.Core.Enums.{ExecutionStatus, is_claimable}
use ptf.Core.Errors.{Result, ok, err}
use ptf.Core.Failure.{ErrorClass, Failure}
use ptf.Core.Json.{JsonValue, JsonFields}
use ptf.Core.Lifecycle.{CancellationSource}
use ptf.Finite.Context.{ExecutionContext}
use ptf.Testing.Delivery.{
  AttemptRecord, UnitState, CallEnd, finish, retry, failed, conclude, type_and_message,
  error_details, deliver_unit, invoke,
}
use ptf.Testing.FiniteKit.{is_deliverable}
use ptf.Worker.Retry.{FinitePolicy}

-- the deliveries that a unit can still have: the attempts left, if it is ready or waits for a retry,
-- and one if it is so with no attempt left, as no unit is that `submit` and the kit made
unfoldable pub unit_budget : UnitState → ℕ
unit_budget u =
    if is_claimable u.status
    then if leb u.unit.max_attempts u.attempts then 1 else u.unit.max_attempts - u.attempts
    else 0

-- those left to a unit whose attempt has begun
abbrev left_after : UnitState → ℕ
left_after u = u.unit.max_attempts - u.attempts

retry-budget :
    (run_id : String) (u : UnitState) (at : ℕ) (error : JsonValue)
    → unit_budget (retry run_id u false at error).1 ≤ left_after u
unfolding unit_budget retry finish
retry-budget run_id u at error = ground arith

finish-budget :
    (run_id : String) (u : UnitState) (status : ExecutionStatus) (error : JsonValue)
    → is_claimable status ≡ false
    → unit_budget (finish run_id u false status error).1 ≤ left_after u
unfolding unit_budget finish
finish-budget run_id u status error lost = ground (arith, lost)

due_budget :
    (now : ℕ) (u : UnitState)
    → is_deliverable now u ≡ true
    → unit_budget u
      ≡ (if leb u.unit.max_attempts u.attempts then 1 else u.unit.max_attempts - u.attempts)
unfolding unit_budget
due_budget now u due = ground (arith, due)

module _ (policy : FinitePolicy) (now : ℕ) where
  failed-budget :
      (run_id : String) (u : UnitState) (failure : Failure)
      → unit_budget (failed policy now run_id u false failure).1 ≤ left_after u
  unfolding failed
  failed-budget run_id u (Failure.contract ErrorClass.cancelled_execution m d) =
      finish-budget run_id u ExecutionStatus.cancelled
        (error_details (Failure.contract ErrorClass.cancelled_execution m d)) refl
  failed-budget run_id u (Failure.contract ErrorClass.permanent_execution m d) =
      finish-budget run_id u ExecutionStatus.failed
        (error_details (Failure.contract ErrorClass.permanent_execution m d)) refl
  failed-budget run_id u (Failure.contract ErrorClass.runtime_contract m d) =
      retry-budget run_id u _ _
  failed-budget run_id u (Failure.contract ErrorClass.invalid_identifier m d) =
      retry-budget run_id u _ _
  failed-budget run_id u (Failure.contract ErrorClass.invariant_violation m d) =
      retry-budget run_id u _ _
  failed-budget run_id u (Failure.contract ErrorClass.planning_drift m d) =
      retry-budget run_id u _ _
  failed-budget run_id u (Failure.contract ErrorClass.retryable_execution m d) =
      retry-budget run_id u _ _
  failed-budget run_id u (Failure.contract ErrorClass.unsupported_version m d) =
      retry-budget run_id u _ _
  failed-budget run_id u (Failure.rate_limited m retry_after d) = retry-budget run_id u _ _
  failed-budget run_id u (Failure.unexpected name text) = retry-budget run_id u _ _

  conclude-budget :
      (run_id : String) (u : UnitState) (end : CallEnd)
      → unit_budget (conclude policy now run_id u false end).1 ≤ left_after u
  unfolding conclude unit_budget
  conclude-budget run_id u (CallEnd.returned result) = ground arith
  conclude-budget run_id u (CallEnd.raised failure) = failed-budget run_id u failure
  conclude-budget run_id u (CallEnd.cancellation message) =
      finish-budget run_id u ExecutionStatus.cancelled
        (type_and_message "CancellationError" message) refl

  module _ {H : Type 0} (run_handler : H → ExecutionContext → JsonFields → CallEnd) where
    deliver_unit-budget :
        (run_id : String) (source : CancellationSource) (handler : H) (u : UnitState)
        (context : Result ExecutionContext) (made : AttemptRecord)
        → (deliver_unit policy now run_handler run_id source handler false u context).0 ≡ ok made
        → unit_budget (deliver_unit policy now run_handler run_id source handler false u context).1
          ≤ left_after u
    unfolding deliver_unit
    deliver_unit-budget run_id source handler u (err e) made answered = absurd (cc)
    deliver_unit-budget run_id source handler u (ok plain) made answered =
        conclude-budget run_id (record u { status = ExecutionStatus.running }) _

    -- A delivery of a deliverable unit that makes a record uses up one of the deliveries left.
    pub invoke-budget :
        (run_id : String) (source : CancellationSource) (handler : H) (u : UnitState)
        (made : AttemptRecord)
        → is_deliverable now u ≡ true
        → (invoke policy now run_handler run_id source handler false u).0 ≡ ok made
        → unit_budget (invoke policy now run_handler run_id source handler false u).1
          < unit_budget u
    unfolding invoke
    invoke-budget run_id source handler u made due answered = ground (
      arith,
      due_budget now u due,
      deliver_unit-budget run_id source handler (record u { attempts = suc u.attempts }) _ made
          answered,
    )
