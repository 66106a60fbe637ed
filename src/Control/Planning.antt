-- ===== src/Control/Planning.antt =====
-- `plan` of `PlannerRunner`, src/distributed_runtime/control/planner.py. `run_planner` is what the
-- planner yields for a request, and the exception that it then ends with, if it raises.
use ptf.Prelude.{ℕ, String, Option, none, some, List, [], ◌∷◌, length}
use ptf.Core.Wire.{Stamp}
use ptf.Core.Enums.{WorkloadMode}
use ptf.Core.Errors.{Result, ok, err, Error, lookup_error, invariant_violation}
use ptf.Core.Json.{JsonFields}
use ptf.Finite.Unit.{WorkloadRequest, ExecutionUnit, PlanningRecord}
use ptf.Finite.Validate.{no_token, collect, validate_plan}
use ptf.Registry.Workloads.{FiniteRegistration, WorkloadRegistration, RuntimeRegistry, workload}
use ptf.State.Tx.{Tx, pure, lift, or_raise, ◌>>=◌, ◌>>◌}
use ptf.State.Finite.Runs.{StoredRun, get_run, request_of}
use ptf.State.Finite.Plan.{load_plan}
use ptf.Control.Planner.{PlannerRunner, persist}

-- `class PlanOutcome`
pub record PlanOutcome : Type 0 where
  pub run_id : String
  pub unit_count : ℕ
  pub planning_generation : ℕ

-- `expected if expected else None`
abbrev pub or_none : List PlanningRecord → Option (List PlanningRecord)
or_none [] = none
or_none (r ∷ rs) = some (r ∷ rs)

-- `validate_plan` of what the planner yields, up to the exception that it raises
unfoldable pub planned_units :
    (JsonFields → String)
    → List PlanningRecord
    → List ExecutionUnit × Option Error
    → Result (List ExecutionUnit)
unfolding validate_plan collect
planned_units digest expected (emitted, none) =
    validate_plan digest no_token (or_none expected) emitted
planned_units digest expected (emitted, some raised) = elim (collect digest no_token 1 [] emitted) [
  | ok units ↦ err raised
  | err e ↦ err e
]

abbrev pub outcome_of : StoredRun × List ExecutionUnit → String → PlanOutcome
outcome_of (run, units) id = record {
  run_id = id;
  unit_count = length units;
  planning_generation = run.planning_generation;
}

module _ {P H W : Type 0} where
  -- `if not isinstance(registration, FiniteRegistration): raise`
  abbrev pub finite_of : WorkloadRegistration P H W → Result (FiniteRegistration P H)
  finite_of (WorkloadRegistration.finite r) = ok r
  finite_of (WorkloadRegistration.continuous r) = err (invariant_violation "workload is not finite")

  module _ {S : Type 0} (sha256 : String → String) (digest : JsonFields → String)
      (registry : RuntimeRegistry P H W S) (runner : PlannerRunner)
      (run_planner : P → WorkloadRequest → List ExecutionUnit × Option Error) where
    -- the registration that the run is pinned to
    unfoldable pub pinned : StoredRun → Result (FiniteRegistration P H)
    unfolding workload
    pinned run =
        elim (workload run.workload_name run.workload_version WorkloadMode.finite registry) [
          | ok registration ↦ finite_of registration
          | err e ↦ err e
        ]

    -- the units that the planner gives for the run, checked against its durable plan
    unfoldable pub plan_units :
        String → StoredRun → FiniteRegistration P H → Tx (StoredRun × List ExecutionUnit)
    unfolding load_plan planned_units
    plan_units id run r = do
      expected ← load_plan id run.planning_generation
      units ← lift (planned_units digest expected (run_planner r.planner (request_of run)))
      pure (run, units)

    -- what comes before the storing
    unfoldable pub prepare_plan : String → Tx (StoredRun × List ExecutionUnit)
    unfolding get_run pinned plan_units
    prepare_plan id = do
      found ← get_run id
      run ← or_raise found (lookup_error "unknown run")
      r ← lift (pinned run)
      plan_units id run r

    unfoldable pub store_units :
        ℕ → Stamp → String → StoredRun × List ExecutionUnit → Tx PlanOutcome
    unfolding persist
    store_units now stamp id (run, units) = do
      persist sha256 digest runner now stamp run run.planning_generation units
      pure (outcome_of (run, units) id)

    -- `plan`
    unfoldable pub plan : ℕ → Stamp → String → Tx PlanOutcome
    unfolding prepare_plan store_units
    plan now stamp id = prepare_plan id >>= store_units now stamp id
