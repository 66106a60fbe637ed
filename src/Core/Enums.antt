-- ===== src/Core/Enums.antt =====
-- src/distributed_runtime/core/enums.py, and the sets of statuses that the SQL tests name.
use ptf.Prelude.{Bool, true, false}

-- `class WorkloadMode`
pub data WorkloadMode : Type 0 where
  finite continuous : WorkloadMode

-- `class RunStatus`
pub data RunStatus : Type 0 where
  pending planning running succeeded failed cancelled : RunStatus

-- `class ExecutionStatus`
pub data ExecutionStatus : Type 0 where
  pending ready running retry_scheduled succeeded failed dead_lettered cancelled : ExecutionStatus

-- `class DeploymentStatus`
pub data DeploymentStatus : Type 0 where
  pending active draining stopped failed : DeploymentStatus

-- `class PartitionStatus`
pub data PartitionStatus : Type 0 where
  unassigned assigned running blocked_sink failed inactive : PartitionStatus

-- `class ErrorKind`
pub data ErrorKind : Type 0 where
  cancelled invalid_identifier invariant_violation planning_drift : ErrorKind
  retryable_execution permanent_execution rate_limited unsupported_version : ErrorKind

pub RunStatus-discrete : Discrete RunStatus
RunStatus-discrete = hlevel

-- `status IN ('pending', 'planning')`
abbrev pub is_plannable : RunStatus → Bool
is_plannable RunStatus.pending = true
is_plannable RunStatus.planning = true
is_plannable _ = false

-- `status = 'running'` of a run
abbrev pub is_run_running : RunStatus → Bool
is_run_running RunStatus.running = true
is_run_running _ = false

-- `status IN ('ready', 'retry_scheduled')`
abbrev pub is_claimable : ExecutionStatus → Bool
is_claimable ExecutionStatus.ready = true
is_claimable ExecutionStatus.retry_scheduled = true
is_claimable _ = false

-- `status NOT IN ('succeeded', 'dead_lettered', 'cancelled')`
abbrev pub is_open : ExecutionStatus → Bool
is_open ExecutionStatus.succeeded = false
is_open ExecutionStatus.dead_lettered = false
is_open ExecutionStatus.cancelled = false
is_open _ = true

-- `status = 'dead_lettered'`
abbrev pub is_dead : ExecutionStatus → Bool
is_dead ExecutionStatus.dead_lettered = true
is_dead _ = false

-- `status = 'succeeded'`
abbrev pub is_succeeded : ExecutionStatus → Bool
is_succeeded ExecutionStatus.succeeded = true
is_succeeded _ = false

-- `status = 'retry_scheduled'`
abbrev pub is_retry_scheduled : ExecutionStatus → Bool
is_retry_scheduled ExecutionStatus.retry_scheduled = true
is_retry_scheduled _ = false

-- `status IN ('unassigned', 'assigned', 'running')`
abbrev pub is_leasable : PartitionStatus → Bool
is_leasable PartitionStatus.unassigned = true
is_leasable PartitionStatus.assigned = true
is_leasable PartitionStatus.running = true
is_leasable _ = false

-- `status IN ('assigned', 'running')`
abbrev pub is_held : PartitionStatus → Bool
is_held PartitionStatus.assigned = true
is_held PartitionStatus.running = true
is_held _ = false

abbrev pub is_unassigned : PartitionStatus → Bool
is_unassigned PartitionStatus.unassigned = true
is_unassigned _ = false

abbrev pub is_inactive : PartitionStatus → Bool
is_inactive PartitionStatus.inactive = true
is_inactive _ = false

abbrev pub is_active_deployment : DeploymentStatus → Bool
is_active_deployment DeploymentStatus.active = true
is_active_deployment _ = false
