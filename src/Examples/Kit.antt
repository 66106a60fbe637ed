-- ===== src/Examples/Kit.antt =====
-- A kit with one run, whose handler fails once and then succeeds.
use ptf.Prelude.{
  map, ◌≡◌, ◌<◌, refl, String, none, some, List, [], ◌∷◌, leb, arith, map, if◌then◌else◌, Option,
}
use ptf.Prelude.Table.{find_where, count_where}
use ptf.Core.Enums.{ExecutionStatus}
use ptf.Core.Errors.{Error, ok, err, lookup_error}
use ptf.Core.Failure.{ErrorClass, Failure}
use ptf.Core.Identifier.{identifier}
use ptf.Core.Json.{JsonValue, JsonFields}
use ptf.Core.Name.{matches_name}
use ptf.Core.Text.{split_on, is_trimmed}
use ptf.Finite.Context.{ExecutionContext}
use ptf.Finite.Unit.{WorkloadRequest, ExecutionUnit, planning_records, execution_id}
use ptf.Finite.Validate.{validate_plan, collect, checkpoint, seen_digest, meets_expected}
use ptf.Registry.Version.{matches_version, semantic_version}
use ptf.Registry.Workloads.{
  identity_eq, Declaration, FiniteRegistration, WorkloadRegistration, RuntimeRegistry, identity_of,
  workload,
}
use ptf.Testing.Budget.{unit_budget}
use ptf.Testing.Delivery.{CallEnd, UnitState}
use ptf.Testing.FiniteKit.{FiniteKit, validated, is_unknown}
use ptf.Testing.Pending.{IsDrained, run_pending_lem}
use ptf.Testing.Redelivery.{count_matches, repeat_unit, repeat_units, repeat_runs, redeliver}
use ptf.Testing.Redelivered.{settled_run, redeliver_lem}
use ptf.Testing.Requests.{submit, local_request, planned_run}
use ptf.Testing.Spending.{units_budget, runs_budget}
use ptf.Worker.Retry.{default_policy}
use ptf.Examples.Data.{digest, unit_a}

abbrev Handler : Type 0
Handler = String

abbrev count_a : FiniteRegistration (List ExecutionUnit) Handler
count_a = record {
  application = "app";
  name = "count";
  semantic_version = "1.0.0";
  execution_class = "small";
  planner = unit_a ∷ [];
  handler = "handle";
}

abbrev registry : RuntimeRegistry (List ExecutionUnit) Handler Declaration String
registry = record {
  application = "app";
  workloads =
      (
        identity_of {W = Declaration} (WorkloadRegistration.finite count_a),
        WorkloadRegistration.finite count_a,
      )
      ∷ [];
  sinks = [];
}

abbrev yields : List ExecutionUnit → WorkloadRequest → List ExecutionUnit × Option Error
yields units request = (units, none)

-- the first attempt fails in a way that is retried
abbrev call : Handler → ExecutionContext → JsonFields → CallEnd
call handler context payload =
    if leb 2 context.attempt
    then CallEnd.returned (JsonValue.text "done")
    else CallEnd.raised (Failure.contract ErrorClass.retryable_execution "slow" JsonFields.end)

abbrev empty_kit : FiniteKit (List ExecutionUnit) Handler
empty_kit = record { runs = []; run_counter = 0 }

abbrev request : WorkloadRequest
request = record {
  run_id = "run:local-1";
  workload_id = "count";
  planner_revision = "1.0.0";
  execution_revision = "1.0.0";
  payload = JsonFields.end;
}

abbrev queued_a : UnitState
queued_a = record {
  unit = unit_a;
  execution_id = "id";
  status = ExecutionStatus.ready;
  attempts = 0;
  next_attempt_at = 0;
  result = none;
}

abbrev one_run : FiniteKit (List ExecutionUnit) Handler
one_run = record {
  runs =
      (
        "run:local-1",
        record {
          request = request;
          registration = count_a;
          records = [];
          cancellation = record {
            scope = record { own_reason = none; deadline = none };
            parents = [];
          };
          units = queued_a ∷ [];
          attempts = [];
        },
      )
      ∷ [];
  run_counter = 1;
}

submitted :
    (submit
      (λ t. "id")
      digest
      (λ n. "1")
      yields
      registry
      "count"
      "1.0.0"
      JsonFields.end
      none
      none
      empty_kit).0
    ≡ ok "run:local-1"
unfolding submit local_request planned_run validated validate_plan collect checkpoint seen_digest
    meets_expected workload identifier semantic_version matches_version split_on find_where
    is_trimmed matches_name identity_eq execution_id planning_records
submitted = refl

three_steps : runs_budget one_run.runs < 3
unfolding runs_budget units_budget unit_budget
three_steps = omega arith

run_pending_lem_example : IsDrained default_policy 0 call 3 none one_run
run_pending_lem_example = run_pending_lem default_policy 0 call 3 none one_run three_steps

-- the unit as its second attempt left it
abbrev done : UnitState
done = record queued_a {
  status = ExecutionStatus.succeeded;
  attempts = 2;
  result = some (JsonValue.text "done");
}

abbrev finished : FiniteKit (List ExecutionUnit) Handler
finished = record one_run {
  runs = map (λ entry. (entry.0, record (entry.1) { units = done ∷ [] })) one_run.runs;
}

-- a redelivery that is refused, since the unit has not ended
refused :
    (redeliver default_policy 0 call "a" none one_run).0
    ≡ err (lookup_error "unit has not completed")
unfolding redeliver is_unknown count_matches count_where repeat_runs repeat_units repeat_unit
refused = refl

redeliver_lem_example :
    let after = (redeliver default_policy 0 call "a" none finished).1 in
    (map settled_run after.runs ≡ map settled_run finished.runs) × (after.run_counter ≡ 1)
redeliver_lem_example = redeliver_lem default_policy 0 call "a" none finished
