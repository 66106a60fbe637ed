-- ===== src/Testing/Outcomes.antt =====
-- src/distributed_runtime/testing/finite.py: `run`, `results`, `attempts` and `cancel` of the kit.
use ptf.Prelude.{
  ℕ, String, Bool, true, false, ◌||◌, Option, List, [], ◌∷◌, ◌++◌, map, not, if◌then◌else◌,
}
use ptf.Prelude.Table.{exists_where, update_where}
use ptf.Core.Enums.{ExecutionStatus, RunStatus, is_succeeded}
use ptf.Core.Errors.{Result, ok, err, lookup_error, ◌>>=◌}
use ptf.Core.Json.{JsonValue}
use ptf.Core.Lifecycle.{cancel, is_cancelled, reason}
use ptf.Testing.Delivery.{AttemptRecord, UnitState}
use ptf.Testing.FiniteKit.{
  RunState, FiniteKit, is_terminal, has_id, is_selected, is_unknown, state_of,
}

-- `class RunRecord`
pub record RunRecord : Type 0 where
  pub run_id : String
  pub status : RunStatus
  pub results : List (Option JsonValue)
  pub attempts : List AttemptRecord

abbrev is_lost : ExecutionStatus → Bool
is_lost ExecutionStatus.failed = true
is_lost ExecutionStatus.dead_lettered = true
is_lost _ = false

abbrev is_cancelled_status : ExecutionStatus → Bool
is_cancelled_status ExecutionStatus.cancelled = true
is_cancelled_status _ = false

-- `results`, of the units of a run
unfoldable pub results_of : List UnitState → List (Option JsonValue)
results_of [] = []
results_of (u ∷ us) = if is_succeeded u.status then u.result ∷ results_of us else results_of us

-- what `cancel` does to a unit
abbrev cancel_unit : UnitState → UnitState
cancel_unit u =
    if is_terminal u.status then u else (record u { status = ExecutionStatus.cancelled })

module _ {P H : Type 0} where
  -- `attempts`
  unfoldable pub attempts_of : Option String → List (String × RunState P H) → List AttemptRecord
  attempts_of id [] = []
  attempts_of id (entry ∷ entries) =
      let rest = attempts_of id entries in
      if is_selected id entry then entry.1.attempts ++ rest else rest

  unfoldable pub kit_attempts : Option String → FiniteKit P H → Result (List AttemptRecord)
  unfolding is_unknown attempts_of
  kit_attempts id kit =
      if is_unknown id kit then err (lookup_error "unknown run") else ok (attempts_of id kit.runs)

  -- `results`
  unfoldable pub kit_results : String → FiniteKit P H → Result (List (Option JsonValue))
  unfolding state_of results_of
  kit_results id kit = state_of id kit >>= λ state. ok (results_of state.units)

  -- `run`
  unfoldable pub run_status : ℕ → RunState P H → RunStatus
  run_status now state =
      if not (exists_where (λ u. not (is_succeeded u.status)) state.units)
      then RunStatus.succeeded
      else if exists_where (λ u. is_lost u.status) state.units
      then RunStatus.failed
      else if is_cancelled now state.cancellation
          || exists_where (λ u. is_cancelled_status u.status) state.units
      then RunStatus.cancelled
      else RunStatus.running

  unfoldable pub run : ℕ → String → FiniteKit P H → Result RunRecord
  unfolding state_of run_status results_of
  run now id kit = elim (state_of id kit) [
    | err e ↦ err e
    | ok state ↦ ok (record {
      run_id = id;
      status = run_status now state;
      results = results_of state.units;
      attempts = state.attempts;
    })
  ]

  -- `cancel`
  unfoldable pub cancel_run :
      ℕ → String → String → FiniteKit P H → Result (Unit {0}) × FiniteKit P H
  unfolding state_of
  cancel_run now reason id kit = elim (state_of id kit) [
    | err e ↦ (err e, kit)
    | ok state ↦
        let (answer, source) = cancel now reason state.cancellation in
        elim answer [
          | err e ↦ (err e, kit)
          | ok changed ↦ (
            ok tt,
            record kit {
              runs =
                  update_where (has_id id)
                    (λ entry. (
                      entry.0,
                      record (entry.1) {
                        cancellation = source;
                        units = map cancel_unit entry.1.units;
                      },
                    ))
                    kit.runs;
            },
          )
        ]
  ]
