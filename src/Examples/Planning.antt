-- ===== src/Examples/Planning.antt =====
-- A run that is planned, and planned again.
use ptf.Prelude.{Option, ◌≡◌, refl, String, none, some, List, [], ◌∷◌}
use ptf.Prelude.Table.{find_where, exists_where, select_where, count_where, order_by, update_where}
use ptf.Core.Errors.{Error, ok, err}
use ptf.Core.Identifier.{identifier}
use ptf.Core.Json.{JsonFields}
use ptf.Core.Name.{matches_name}
use ptf.Core.Wire.{versioned_envelope, is_kind}
use ptf.Core.Text.{split_on, is_trimmed, is_required}
use ptf.Finite.Unit.{WorkloadRequest, ExecutionUnit, execution_id}
use ptf.Finite.Validate.{validate_plan, collect, checkpoint, seen_digest, meets_expected}
use ptf.Registry.Version.{matches_version, semantic_version}
use ptf.Registry.Workloads.{
  identity_eq, Declaration, FiniteRegistration, WorkloadRegistration, RuntimeRegistry, identity_of,
  workload,
}
use ptf.State.Db.{Db, empty_db}
use ptf.State.Finite.Runs.{map_run, has_run_id, run_from_row, pending_run, get_run}
use ptf.State.Finite.Plan.{plan_records, load_plan, stored_record, insert_plan_row, insert_ready}
use ptf.State.Outbox.{insert_outbox}
use ptf.Control.Planner.{
  PlannerRunner, dispatch_envelope, persist, persist_units, persist_unit, mark_running,
}
use ptf.Control.Planning.{plan, pinned, plan_units, prepare_plan, store_units, planned_units}
use ptf.Control.Replanning.{plan_again}
use ptf.Examples.Data.{stamp, digest, unit_a, run_row, planned_a, finite_db}

-- a planner is the sequence of units that it yields
abbrev Planned : Type 0
Planned = RuntimeRegistry (List ExecutionUnit) String Declaration String

abbrev count_a : FiniteRegistration (List ExecutionUnit) String
count_a = record {
  application = "app";
  name = "count";
  semantic_version = "1.0.0";
  execution_class = "small";
  planner = unit_a ∷ [];
  handler = "handle";
}

abbrev registry : Planned
registry = record {
  application = "app";
  workloads =
      (
        identity_of {W = Declaration} (WorkloadRegistration.finite count_a),
        WorkloadRegistration.finite count_a,
      )
      ∷ [];
  sinks = [];
}

abbrev yields : List ExecutionUnit → WorkloadRequest → List ExecutionUnit × Option Error
yields units request = (units, none)

abbrev runner : PlannerRunner
runner = record { dispatch_topic = "units"; application = "app" }

abbrev pending_db : Db
pending_db = record empty_db {
  runs = pending_run 0 "r1" "app.count" "count" "1.0.0" "p1" "e1" JsonFields.end ∷ [];
}

-- the first time, one unit is planned
planned_once :
    (plan (λ t. t) digest registry runner yields 5 stamp "r1" pending_db).0
    ≡ ok (record { run_id = "r1"; unit_count = 1; planning_generation = 1 })
unfolding plan prepare_plan get_run pinned plan_units load_plan plan_records planned_units
    validate_plan collect checkpoint seen_digest meets_expected workload identifier semantic_version
    matches_version split_on find_where select_where exists_where count_where order_by update_where
    is_trimmed matches_name identity_eq store_units persist persist_units persist_unit mark_running
    insert_plan_row insert_ready insert_outbox dispatch_envelope versioned_envelope is_kind
    is_required execution_id
planned_once = refl

known : map_run (find_where (has_run_id "r1") finite_db.runs) ≡ some (run_from_row run_row)
unfolding find_where
known = refl

durable : plan_records "r1" 1 finite_db ≡ stored_record planned_a ∷ []
unfolding plan_records select_where order_by
durable = refl

plan_again_example :
    (e : Error) × (plan (λ t. t) digest registry runner yields 5 stamp "r1" finite_db
      ≡ (err e, finite_db))
plan_again_example =
    plan_again (λ t. t) digest registry runner yields 5 stamp "r1" finite_db (run_from_row run_row)
      (stored_record planned_a) [] known durable
