-- ===== src/Testing/Settling.antt =====
-- src/distributed_runtime/testing/finite.py: a repeated delivery leaves the unit as it was.
use ptf.Prelude.{
  ℕ, ◌+◌, ◌≡◌, ◌∙◌, refl, sym, ap, suc, String, true, false, some, List, [], ◌∷◌, map, Bool-cases,
  inl, inr, leb,
}
use ptf.Core.Enums.{ExecutionStatus}
use ptf.Core.Errors.{Result, ok, err}
use ptf.Core.Failure.{ErrorClass, Failure}
use ptf.Core.Json.{JsonValue, JsonFields}
use ptf.Core.Lifecycle.{CancellationSource}
use ptf.Finite.Context.{ExecutionContext}
use ptf.Testing.Delivery.{
  AttemptRecord, UnitState, CallEnd, finish, retry, failed, conclude, deliver_unit, error_details,
  invoke,
}
use ptf.Testing.FiniteKit.{RunState, is_terminal, behind}
use ptf.Testing.Spending.{some_pair, behind-inv}
use ptf.Worker.Retry.{FinitePolicy, backoff_delay}
use ptf.Testing.Redelivery.{has_unit_key, repeat_unit, repeat_units}

-- a unit without the number of its attempts
abbrev pub settled_unit : UnitState → UnitState
settled_unit u = record u { attempts = 0 }

finish-settled :
    (run_id : String) (u : UnitState) (status : ExecutionStatus) (error : JsonValue)
    → (finish run_id u true status error).1 ≡ u
unfolding finish
finish-settled run_id u status error = refl

retry-settled :
    (run_id : String) (u : UnitState) (at : ℕ) (error : JsonValue)
    → (retry run_id u true at error).1 ≡ u
unfolding retry finish
retry-settled run_id u at error = elim (Bool-cases (leb u.unit.max_attempts u.attempts)) [
  | inl over ↦ rw over refl
  | inr more ↦ rw more refl
]

module _ (policy : FinitePolicy) (now : ℕ) where
  again_settled :
      (run_id : String) (u : UnitState) (failure : Failure)
      → (retry run_id u true (now + backoff_delay u.attempts policy) (error_details failure)).1 ≡ u
  again_settled run_id u failure =
      retry-settled run_id u (now + backoff_delay u.attempts policy) (error_details failure)

  failed-settled :
      (run_id : String) (u : UnitState) (failure : Failure)
      → (failed policy now run_id u true failure).1 ≡ u
  unfolding failed finish
  failed-settled run_id u (Failure.contract ErrorClass.cancelled_execution m d) = refl
  failed-settled run_id u (Failure.contract ErrorClass.permanent_execution m d) = refl
  failed-settled run_id u (Failure.contract ErrorClass.runtime_contract m d) =
      again_settled run_id u (Failure.contract ErrorClass.runtime_contract m d)
  failed-settled run_id u (Failure.contract ErrorClass.invalid_identifier m d) =
      again_settled run_id u (Failure.contract ErrorClass.invalid_identifier m d)
  failed-settled run_id u (Failure.contract ErrorClass.invariant_violation m d) =
      again_settled run_id u (Failure.contract ErrorClass.invariant_violation m d)
  failed-settled run_id u (Failure.contract ErrorClass.planning_drift m d) =
      again_settled run_id u (Failure.contract ErrorClass.planning_drift m d)
  failed-settled run_id u (Failure.contract ErrorClass.retryable_execution m d) =
      again_settled run_id u (Failure.contract ErrorClass.retryable_execution m d)
  failed-settled run_id u (Failure.contract ErrorClass.unsupported_version m d) =
      again_settled run_id u (Failure.contract ErrorClass.unsupported_version m d)
  failed-settled run_id u (Failure.rate_limited m retry_after d) =
      retry-settled run_id u (now + retry_after)
        (error_details (Failure.rate_limited m retry_after d))
  failed-settled run_id u (Failure.unexpected name text) =
      again_settled run_id u (Failure.unexpected name text)

  conclude-settled :
      (run_id : String) (u : UnitState) (end : CallEnd)
      → (conclude policy now run_id u true end).1 ≡ u
  unfolding conclude finish
  conclude-settled run_id u (CallEnd.returned result) = refl
  conclude-settled run_id u (CallEnd.raised failure) = failed-settled run_id u failure
  conclude-settled run_id u (CallEnd.cancellation message) = refl

  deliver_unit-settled :
      {H : Type 0} (run_handler : H → ExecutionContext → JsonFields → CallEnd) (run_id : String)
      (source : CancellationSource) (handler : H) (u : UnitState)
      (context : Result ExecutionContext)
      → (deliver_unit policy now run_handler run_id source handler true u context).1 ≡ u
  unfolding deliver_unit
  deliver_unit-settled run_handler run_id source handler u (err e) = refl
  deliver_unit-settled run_handler run_id source handler u (ok plain) = conclude-settled run_id u _

  module _ {P H : Type 0} (run_handler : H → ExecutionContext → JsonFields → CallEnd) where
    abbrev again : RunState P H → UnitState → Result AttemptRecord × UnitState
    again = repeat_unit policy now run_handler

    repeat_unit-settled :
        (state : RunState P H) (u : UnitState) → settled_unit (again state u).1 ≡ settled_unit u
    unfolding repeat_unit invoke
    repeat_unit-settled state u = elim (Bool-cases (is_terminal u.status)) [
      | inl ended ↦ rw ended (
          ap settled_unit (
            deliver_unit-settled run_handler state.request.run_id state.cancellation
              state.registration.handler (record u { attempts = suc u.attempts }) _))
      | inr open_still ↦ rw open_still refl
    ]

    repeat_units-here :
        (key : String) (state : RunState P H) (u : UnitState) (us : List UnitState)
        → has_unit_key key u ≡ true
        → repeat_units policy now run_handler key state (u ∷ us)
          ≡ some ((again state u).0, (again state u).1 ∷ us)
    unfolding repeat_units
    repeat_units-here key state u us here = rw (here, repeat_units) refl

    repeat_units-elsewhere :
        (key : String) (state : RunState P H) (u : UnitState) (us : List UnitState)
        → has_unit_key key u ≡ false
        → repeat_units policy now run_handler key state (u ∷ us)
          ≡ behind u (repeat_units policy now run_handler key state us)
    unfolding repeat_units
    repeat_units-elsewhere key state u us elsewhere = rw (elsewhere, repeat_units) refl

    pub repeat_units-settled :
        (key : String) (state : RunState P H) (us : List UnitState) (answer : Result AttemptRecord)
        (after : List UnitState)
        → repeat_units policy now run_handler key state us ≡ some (answer, after)
        → map settled_unit after ≡ map settled_unit us
    unfolding repeat_units
    repeat_units-settled key state [] answer after e = absurd (cc)
    repeat_units-settled key state (u ∷ us) answer after e =
        elim (Bool-cases (has_unit_key key u)) [
          | inl here ↦
              let (answered, same) = some_pair (sym (repeat_units-here key state u us here) ∙ e) in
              sym (ap (map settled_unit) same)
              ∙ ap (λ x. x ∷ map settled_unit us) (repeat_unit-settled state u)
          | inr elsewhere ↦
              let (rest, repeated, same) =
                behind-inv u (repeat_units policy now run_handler key state us) answer after
                  (sym (repeat_units-elsewhere key state u us elsewhere) ∙ e) in
              sym (ap (map settled_unit) same)
              ∙ ap (λ xs. settled_unit u ∷ xs)
                  (repeat_units-settled key state us answer rest repeated)
        ]
