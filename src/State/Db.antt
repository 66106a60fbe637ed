-- ===== src/State/Db.antt =====
-- The tables of src/distributed_runtime/state/migrations/*.sql, one record type per table and a
-- record `Db` of all of them. Times are microseconds. Left out are `updated_at`, `assigned_at`,
-- `cancelled_at`, `started_at`, `finished_at`, `published_at` and the `created_at` of all tables
-- but `finite_runs` and `outbox_messages`: the program writes them and never reads them. The model's
-- integers do not overflow, and a transaction that rolls back gives its `outbox_id` back.
use ptf.Prelude.{ℕ, ◌*◌, String, List, [], Option}
use ptf.Core.Enums.{RunStatus, ExecutionStatus, DeploymentStatus, PartitionStatus}
use ptf.Core.Json.{JsonValue, JsonFields}
use ptf.Finite.Unit.{ExecutionUnit}
use ptf.Core.Envelope.{VersionedEnvelope}

-- `make_interval(secs => n)`
abbrev pub seconds : ℕ → ℕ
seconds n = n * 1000000

-- `finite_runs`, PRIMARY KEY (run_id)
pub record RunRow : Type 0 where
  pub run_id : String
  pub workload_id : String
  pub workload_name : String
  pub workload_version : String
  pub planner_revision : String
  pub execution_revision : String
  pub status : RunStatus
  pub input : JsonFields
  pub planning_generation : ℕ
  pub created_at : ℕ

-- `finite_plan_units`, PRIMARY KEY (run_id, planning_generation, ordinal),
-- UNIQUE (run_id, planning_generation, unit_key)
pub record PlanRow : Type 0 where
  pub run_id : String
  pub planning_generation : ℕ
  pub ordinal : ℕ
  pub unit_key : String
  pub payload_hash : String
  pub unit : ExecutionUnit

-- `finite_units`, PRIMARY KEY (run_id, unit_key)
pub record UnitRow : Type 0 where
  pub run_id : String
  pub unit_key : String
  pub status : ExecutionStatus
  pub attempt_count : ℕ
  pub next_attempt_at : Option ℕ
  pub claimed_by : Option String
  pub claim_expires_at : Option ℕ
  pub claim_token : ℕ
  pub result : Option JsonValue
  pub last_error : Option JsonValue

-- `finite_attempts`, PRIMARY KEY (run_id, unit_key, attempt)
pub record AttemptRow : Type 0 where
  pub run_id : String
  pub unit_key : String
  pub attempt : ℕ
  pub execution_id : String
  pub outcome : String
  pub error : Option JsonValue

pub data OutboxStatus : Type 0 where
  pending published failed : OutboxStatus

-- `outbox_messages`, PRIMARY KEY (outbox_id), UNIQUE (kind, dedup_key)
pub record OutboxRow : Type 0 where
  pub outbox_id : ℕ
  pub kind : String
  pub dedup_key : String
  pub destination : String
  pub envelope : VersionedEnvelope
  pub fencing_token : Option ℕ
  pub status : OutboxStatus
  pub attempts : ℕ
  pub created_at : ℕ

-- `continuous_deployments`, PRIMARY KEY (deployment_id)
pub record DeploymentRow : Type 0 where
  pub deployment_id : String
  pub workload_id : String
  pub workload_version : String
  pub status : DeploymentStatus
  pub config : JsonFields

-- `continuous_partitions`, PRIMARY KEY (deployment_id, partition_id)
pub record PartitionRow : Type 0 where
  pub deployment_id : String
  pub partition_id : String
  pub status : PartitionStatus
  pub weight : ℕ
  pub payload : JsonFields
  pub owner_id : Option String
  pub fencing_token : ℕ
  pub lease_expires_at : Option ℕ

pub data WorkerStatus : Type 0 where
  active draining dead : WorkerStatus

-- `worker_instances`, PRIMARY KEY (instance_id)
pub record WorkerRow : Type 0 where
  pub instance_id : String
  pub execution_classes : List String
  pub revision : String
  pub last_heartbeat_at : ℕ
  pub status : WorkerStatus

pub record Db : Type 0 where
  pub runs : List RunRow
  pub plan_units : List PlanRow
  pub units : List UnitRow
  pub attempts : List AttemptRow
  pub outbox : List OutboxRow
  pub next_outbox_id : ℕ  -- the identity column's sequence
  pub deployments : List DeploymentRow
  pub partitions : List PartitionRow
  pub workers : List WorkerRow

abbrev pub empty_db : Db
empty_db = record {
  runs = [];
  plan_units = [];
  units = [];
  attempts = [];
  outbox = [];
  next_outbox_id = 1;
  deployments = [];
  partitions = [];
  workers = [];
}
