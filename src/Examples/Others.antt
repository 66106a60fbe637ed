-- ===== src/Examples/Others.antt =====
-- Runs of the outbox, the worker registry, the planner's check and the retries.
use ptf.Prelude.{
  ◌≤◌, ◌≡◌, ◌↔◌, refl, true, false, none, some, List, [], ◌∷◌, arith, length, is_some,
  if◌then◌else◌,
}
use ptf.Prelude.Table.{find_where, count_where, exists_where, IsUnique}
use ptf.Core.Enums.{ExecutionStatus}
use ptf.Core.Errors.{ok}
use ptf.Core.Failure.{Failure}
use ptf.Core.Json.{JsonFields, JsonValue}
use ptf.Finite.Unit.{ExecutionUnit, planning_records}
use ptf.Finite.Validate.{validate_plan, meets_expected, no_token, collect, checkpoint, seen_digest}
use ptf.Finite.Drift.{same_key, validate_plan-accepts_iff}
use ptf.State.Db.{Db, WorkerStatus, seconds}
use ptf.State.Finite.Plan.{has_key}
use ptf.State.Finite.Attempt.{final_status}
use ptf.State.Outbox.{has_outbox_id, dispatch, insert_outbox}
use ptf.State.Outbox.Drain.{batch, dispatch_lem}
use ptf.State.Outbox.Dedup.{insert_outbox_converges}
use ptf.State.Workers.{has_instance_id, mark_stale_dead, heartbeat, beat_row, mark_row}
use ptf.State.Workers.Liveness.{stale_draining_revives}
use ptf.Worker.Retry.{AttemptOutcome, default_policy, checked_policy, backoff_delay, classify_error}
use ptf.Worker.Settle.{is_retried, final_outcome}
use ptf.Worker.Backoff.{backoff_delay_bounds, classify_error_lem}
use ptf.Core.Enums.{RunStatus}
use ptf.State.Db.{RunRow, OutboxStatus, empty_db}
use ptf.State.Finite.Runs.{set_status, run_from_row}
use ptf.Finite.Unit.{execution_id}
use ptf.Core.Wire.{versioned_envelope, is_kind}
use ptf.Core.Text.{is_required}
use ptf.Control.Planner.{PlannerRunner, persist}
use ptf.Control.Dispatcher.{OutboxDispatcher}
use ptf.Core.Envelope.{VersionedEnvelope}
use ptf.State.Db.{UnitRow}
use ptf.Examples.Data.{
  stamp, run_row, digest, finite_db, claim_1, held_row, unit_a, envelope, message, outbox_db,
  one_message, draining_worker, workers_db,
}

message_found : find_where (has_outbox_id 1) outbox_db.outbox ≡ some message
unfolding find_where
message_found = refl

dispatch_lem_example :
    let rs = batch 100 outbox_db.outbox in
    let (answer, after) = dispatch (λ m. false) 100 outbox_db in
    (answer ≡ ok (count_where (λ r. false) rs))
    × (find_where (has_outbox_id 1) after.outbox
        ≡ some (
            if exists_where (has_outbox_id 1) rs
            then (record message { status = OutboxStatus.failed; attempts = 1 })
            else message))
dispatch_lem_example =
    dispatch_lem (λ m. false) 100 outbox_db 1 message (one_message message) message_found

insert_outbox_converges_example :
    let (first, after) = insert_outbox 5 "emission" "k" "topic" envelope (some 3) outbox_db in
    let (second, last) = insert_outbox 6 "emission" "k" "other" envelope (some 2) after in
    (second ≡ first) × (length last.outbox ≡ length after.outbox)
insert_outbox_converges_example =
    insert_outbox_converges 5 6 "emission" "k" "topic" "other" envelope envelope (some 3) (some 2)
      outbox_db

worker_found : find_where (has_instance_id "w1") workers_db.workers ≡ some draining_worker
unfolding find_where
worker_found = refl

stale_draining_revives_example :
    let swept = (mark_stale_dead 200000000 120 workers_db).1 in
    let after = (heartbeat 200000001 "w1" none swept).1 in
    (find_where (has_instance_id "w1") after.workers
      ≡ some (beat_row 200000001 none (mark_row WorkerStatus.dead draining_worker)))
    × ((beat_row 200000001 none (mark_row WorkerStatus.dead draining_worker)).status
        ≡ WorkerStatus.active)
stale_draining_revives_example =
    stale_draining_revives 200000000 120 200000001 none workers_db "w1" draining_worker worker_found
      refl (omega arith)

abbrev unit_b : ExecutionUnit
unit_b = record unit_a { unit_key = "b"; idempotency_key = "b" }

abbrev both : List ExecutionUnit
both = unit_a ∷ unit_b ∷ []

accepted : validate_plan digest no_token none both ≡ ok both
unfolding validate_plan collect checkpoint seen_digest meets_expected
accepted = refl

validate_plan-accepts_iff_example :
    (validate_plan digest no_token (some (planning_records digest 0 both)) both ≡ ok both)
    ↔ (IsUnique same_key both × (planning_records digest 0 both ≡ planning_records digest 0 both))
validate_plan-accepts_iff_example =
    validate_plan-accepts_iff digest (planning_records digest 0 both) both

default_checked : checked_policy default_policy ≡ ok default_policy
unfolding checked_policy
default_checked = refl

backoff_delay_bounds_example :
    (seconds 5 ≤ backoff_delay 9 default_policy) × (backoff_delay 9 default_policy ≤ seconds 300)
backoff_delay_bounds_example = backoff_delay_bounds 9 default_policy default_checked

abbrev limited : Failure
limited = Failure.rate_limited "slow down" 7000000 JsonFields.end

classify_error_lem_example :
    let o = classify_error (λ n t. t) limited 1 default_policy in
    (is_some (final_status o.outcome) ≡ true)
    × (is_some o.retry_delay ≡ is_retried o.outcome)
    × (elim o.retry_delay as (λ _. Type 0) [
      | none ↦ Unit {0}
      | some d ↦ backoff_delay 1 default_policy ≤ d
    ])
classify_error_lem_example = classify_error_lem (λ n t. t) limited 1 default_policy

abbrev held_db : Db
held_db = record finite_db { units = held_row ∷ [] }

held_found : find_where (has_key "r1" "a") held_db.units ≡ some held_row
unfolding find_where
held_found = refl

abbrev slow : AttemptOutcome
slow = record { outcome = "retryable"; error = JsonValue.text "slow"; retry_delay = some 5000000 }

slow_known : final_status (final_outcome claim_1 slow) ≡ some ExecutionStatus.retry_scheduled
unfolding final_status final_outcome
slow_known = refl

abbrev runner : PlannerRunner
runner = record { dispatch_topic = "units"; application = "app" }

abbrev unplanned : RunRow
unplanned = set_status RunStatus.pending run_row

abbrev unplanned_db : Db
unplanned_db = record empty_db { runs = unplanned ∷ [] }

-- the plan of two units is stored
planned_both :
    (persist (λ t. t) digest runner 5 stamp (run_from_row unplanned) 1 both unplanned_db).0 ≡ ok tt
unfolding persist find_where count_where exists_where versioned_envelope is_kind is_required
    execution_id
planned_both = refl

abbrev dispatcher : OutboxDispatcher
dispatcher = record { application = "app"; dispatch_topic = "units" }

abbrev retry_db : Db
retry_db = record finite_db {
  units =
      record held_row { status = ExecutionStatus.retry_scheduled; next_attempt_at = some 7 } ∷ [];
}

abbrev retrying : UnitRow
retrying = record held_row { status = ExecutionStatus.retry_scheduled; next_attempt_at = some 7 }

abbrev woken : VersionedEnvelope
woken = record {
  message_kind = "unit.dispatch";
  run_id = "r1";
  execution_id = "r1:a";
  idempotency_key = "a";
  application = "app";
  workload = run_row.workload_name;
  workload_version = run_row.workload_version;
  handler = unit_a.handler;
  attempt_generation = 2;
  execution_class = unit_a.execution_class;
  runtime_pool_revision = "e1";
  published_at = "2024-01-01T00:00:00Z";
  payload = some (JsonFields.field "unit_key" (JsonValue.text "a") JsonFields.end);
  payload_ref = none;
  trace_context = [];
}
