-- ===== src/Testing/Requests.antt =====
-- src/distributed_runtime/testing/finite.py: `submit`, `redeliver`, `replan` and `attempts` of the
-- kit.
use Prim.Native.String.{◌++◌ as ◌+++◌}
use ptf.Prelude.{ℕ, suc, String, ◌==◌, Option, none, some, List, [], ◌∷◌, ◌++◌, map, if◌then◌else◌}
use ptf.Core.Enums.{ExecutionStatus, WorkloadMode}
use ptf.Core.Errors.{Result, ok, err, Error, lookup_error, value_error, require, ◌>>=◌, ◌>>◌}
use ptf.Core.Identifier.{IdentifierKind, identifier}
use ptf.Core.Json.{JsonFields, finite_fields}
use ptf.Core.Lifecycle.{new_source}
use ptf.Finite.Unit.{WorkloadRequest, ExecutionUnit, planning_records, execution_id}
use ptf.Registry.Workloads.{FiniteRegistration, WorkloadRegistration, RuntimeRegistry, workload}
use ptf.Testing.Delivery.{UnitState}
use ptf.Testing.FiniteKit.{RunState, FiniteKit, state_of, validated, token_of}

-- `a or b` of an optional text
abbrev or_else : Option String → String → String
or_else none other = other
or_else (some t) other = if t == "" then other else t

-- `_UnitState(...)` of a planned unit
abbrev queued : (String → String) → WorkloadRequest → ExecutionUnit → UnitState
queued sha256 request unit = record {
  unit = unit;
  execution_id = execution_id sha256 unit request;
  status = ExecutionStatus.ready;
  attempts = 0;
  next_attempt_at = 0;
  result = none;
}

module _ {P H : Type 0} where
  abbrev finite_or_raise :
      {W : Type 0} → WorkloadRegistration P H W → Result (FiniteRegistration P H)
  finite_or_raise (WorkloadRegistration.finite r) = ok r
  finite_or_raise (WorkloadRegistration.continuous r) = err (lookup_error "workload is not finite")

  module _ (sha256 : String → String) (digest : JsonFields → String) (show : ℕ → String)
      (run_planner : P → WorkloadRequest → List ExecutionUnit × Option Error) where
    -- the request of the run of this number
    unfoldable pub local_request :
        ℕ
        → FiniteRegistration P H
        → Option String
        → Option String
        → JsonFields
        → Result WorkloadRequest
    unfolding identifier finite_fields
    local_request n r planner execution payload = do
      run_id ← identifier IdentifierKind.run_id ("run:local-" +++ show n)
      workload_id ← identifier IdentifierKind.workload_id r.name
      planner_revision ← identifier IdentifierKind.revision_id (or_else planner r.semantic_version)
      execution_revision ←
          identifier IdentifierKind.revision_id (or_else execution r.semantic_version)
      require (finite_fields payload) (value_error "payload does not support non-finite numbers")
      ok (record {
        run_id = run_id;
        workload_id = workload_id;
        planner_revision = planner_revision;
        execution_revision = execution_revision;
        payload = payload;
      })

    -- the state of a run that was just planned
    unfoldable pub planned_run : FiniteRegistration P H → WorkloadRequest → Result (RunState P H)
    unfolding validated
    planned_run r request = do
      units ← validated digest none none (run_planner r.planner request)
      ok (record {
        request = request;
        registration = r;
        records = planning_records digest 0 units;
        cancellation = new_source;
        units = map (queued sha256 request) units;
        attempts = [];
      })

    -- `submit`; the number is used up also when planning raises
    unfoldable pub submit :
        {W S : Type 0}
        → RuntimeRegistry P H W S
        → String
        → String
        → JsonFields
        → Option String
        → Option String
        → FiniteKit P H
        → Result String × FiniteKit P H
    unfolding workload local_request planned_run
    submit registry name version payload planner execution kit =
        elim (workload name version WorkloadMode.finite registry >>= finite_or_raise) [
          | err e ↦ (err e, kit)
          | ok r ↦
              let counted = record kit { run_counter = suc kit.run_counter } in
              elim (local_request counted.run_counter r planner execution payload) [
                | err e ↦ (err e, counted)
                | ok request ↦ elim (planned_run r request) [
                  | err e ↦ (err e, counted)
                  | ok state ↦ (
                    ok request.run_id,
                    record counted { runs = kit.runs ++ (request.run_id, state) ∷ [] },
                  )
                ]
              ]
        ]

    -- `replan`
    unfoldable pub replan : ℕ → String → FiniteKit P H → Result (List ExecutionUnit)
    unfolding state_of validated
    replan now id kit = do
      state ← state_of id kit
      validated digest (token_of now state.cancellation) (some state.records)
          (run_planner state.registration.planner state.request)
