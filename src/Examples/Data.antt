-- ===== src/Examples/Data.antt =====
-- Rows of a run with one unit, a deployment with one partition, a message and a worker.
use ptf.Prelude.{String, Bool, true, none, some, [], ◌∷◌, arith}
use ptf.Prelude.Table.{count_where}
use ptf.Core.Enums.{RunStatus, DeploymentStatus, PartitionStatus}
use ptf.Core.Wire.{Stamp}
use ptf.Core.Json.{JsonFields}
use ptf.Core.Envelope.{VersionedEnvelope}
use ptf.Continuous.Contracts.{Partition, LeaseHandle}
use ptf.Finite.Unit.{ExecutionUnit}
use ptf.State.Db.{
  Db, RunRow, PlanRow, UnitRow, OutboxRow, DeploymentRow, PartitionRow, WorkerRow, WorkerStatus,
  empty_db,
}
use ptf.State.Finite.Runs.{pending_run, set_status}
use ptf.State.Finite.Plan.{plan_row, ready_unit}
use ptf.State.Finite.Claim.{ClaimedUnit}
use ptf.State.Outbox.{pending_row}
use ptf.State.Finite.Exclusion.{IsKeyed, running_row}
use ptf.State.Continuous.Exclusion.{IsKeyed as IsLeaseKeyed}
use ptf.State.Outbox.Sending.{IsNumbered}

abbrev pub by_key : String → String → Bool
by_key a b = true

abbrev pub digest : JsonFields → String
digest payload = "digest"

abbrev pub unit_a : ExecutionUnit
unit_a = record {
  unit_key = "a";
  handler = "handle";
  payload = JsonFields.end;
  execution_class = "small";
  timeout_seconds = 60;
  max_attempts = 2;
  idempotency_key = "a";
}

abbrev pub run_row : RunRow
run_row =
    set_status RunStatus.running
      (pending_run 0 "r1" "app.count" "count" "1.0.0" "p1" "e1" JsonFields.end)

abbrev pub planned_a : PlanRow
planned_a = plan_row digest "r1" 1 0 unit_a

abbrev pub waiting : UnitRow
waiting = ready_unit "r1" "a"

-- one running run with one unit that waits
abbrev pub finite_db : Db
finite_db = record empty_db {
  runs = run_row ∷ [];
  plan_units = planned_a ∷ [];
  units = waiting ∷ [];
}

-- every timestamp has an offset, and every payload is small
abbrev pub stamp : Stamp
stamp = record {
  offset_of = λ t. some true;
  encoded_size = λ fields. 2;
  text = "2024-01-01T00:00:00Z";
}

-- the unit as claimed at 10 by `w1`
abbrev pub held_row : UnitRow
held_row = running_row 10 "w1" 120 waiting planned_a

abbrev pub claim_1 : ClaimedUnit
claim_1 = record {
  run_id = "r1";
  unit_key = "a";
  unit = unit_a;
  attempt = 1;
  claim_token = 1;
  claim_expires_at = 180000010;
}

-- a handle from before the claim
abbrev pub claim_0 : ClaimedUnit
claim_0 = record claim_1 { claim_token = 0; attempt = 0 }

abbrev pub envelope : VersionedEnvelope
envelope = record {
  message_kind = "event";
  run_id = "r1";
  execution_id = "x";
  idempotency_key = "a";
  application = "app";
  workload = "count";
  workload_version = "1.0.0";
  handler = "handle";
  attempt_generation = 1;
  execution_class = "small";
  runtime_pool_revision = "e1";
  published_at = "t";
  payload = none;
  payload_ref = none;
  trace_context = [];
}

abbrev pub deployment : DeploymentRow
deployment = record {
  deployment_id = "d1";
  workload_id = "feed";
  workload_version = "1.0.0";
  status = DeploymentStatus.active;
  config = JsonFields.end;
}

-- a partition that `w1` held under token 3 until 5
abbrev pub lapsed_row : PartitionRow
lapsed_row = record {
  deployment_id = "d1";
  partition_id = "p1";
  status = PartitionStatus.running;
  weight = 1;
  payload = JsonFields.end;
  owner_id = some "w1";
  fencing_token = 3;
  lease_expires_at = some 5;
}

abbrev pub lease_3 : LeaseHandle
lease_3 = record { deployment_id = "d1"; partition_id = "p1"; owner_id = "w1"; fencing_token = 3 }

abbrev pub continuous_db : Db
continuous_db = record empty_db { deployments = deployment ∷ []; partitions = lapsed_row ∷ [] }

abbrev pub partition_1 : Partition
partition_1 = record { partition_id = "p1"; payload = JsonFields.end; weight = 1; metadata = [] }

abbrev pub partition_2 : Partition
partition_2 = record { partition_id = "p2"; payload = JsonFields.end; weight = 1; metadata = [] }

abbrev pub message : OutboxRow
message = pending_row 1 0 "emission" "d1:p1:e1" "topic" envelope (some 3)

abbrev pub outbox_db : Db
outbox_db = record empty_db { outbox = message ∷ []; next_outbox_id = 2 }

abbrev pub draining_worker : WorkerRow
draining_worker = record {
  instance_id = "w1";
  execution_classes = "small" ∷ [];
  revision = "e1";
  last_heartbeat_at = 0;
  status = WorkerStatus.draining;
}

abbrev pub workers_db : Db
workers_db = record empty_db { workers = draining_worker ∷ [] }

-- a table of one row is keyed
pub one_unit : (u : UnitRow) → IsKeyed (u ∷ [])
unfolding count_where
one_unit u run key = ground arith

pub one_partition : (r : PartitionRow) → IsLeaseKeyed (r ∷ [])
unfolding count_where
one_partition r d p = ground arith

pub one_message : (r : OutboxRow) → IsNumbered (r ∷ [])
unfolding count_where
one_message r n = ground arith
