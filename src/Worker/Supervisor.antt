-- ===== src/Worker/Supervisor.antt =====
-- src/distributed_runtime/worker/continuous.py: the supervisor of the partitions that one worker
-- instance runs. A task is what the supervisor reads and does of it: whether it is done, and whether
-- it was told to stop. `monotonic` is the clock of the cancellation sources, `now` the database's.
-- A tick is run without statements of other processes between its own.
use ptf.Prelude.{
  ℕ, String, Bool, true, false, ◌==◌, ◌&&◌, ◌||◌, none, some, List, [], ◌∷◌, ◌++◌, map, ltb, nat_eq,
  not, length, if◌then◌else◌,
}
use ptf.Prelude.Table.{find_where, exists_where, select_where}
use ptf.Core.Enums.{WorkloadMode, PartitionStatus}
use ptf.Core.Errors.{Result, ok, err, type_error, lookup_error, value_error}
use ptf.Core.Lifecycle.{CancellationSource, new_source, cancel}
use ptf.Continuous.Contracts.{partition, LeaseHandle, lease_handle}
use ptf.Registry.Workloads.{ContinuousRegistration, WorkloadRegistration, RuntimeRegistry, workload}
use ptf.State.Db.{Db}
use ptf.State.Tx.{Tx, pure, lift, or_raise, ◌>>=◌}
use ptf.State.Continuous.Deployments.{get_deployment}
use ptf.State.Continuous.Sync.{StoredPartition, partitions}
use ptf.State.Continuous.Lease.{renew_lease, set_partition_status}

-- `class _RunningPartition`
pub record RunningPartition : Type 0 where
  pub lease : LeaseHandle
  pub cancellation : CancellationSource
  pub is_done : Bool  -- `task.done()`
  pub told_to_stop : Bool  -- `task.cancel()` was called

-- an entry of the dictionary `_running`
abbrev pub Entry : Type 0
Entry = String × RunningPartition

abbrev pub has_key : String → Entry → Bool
has_key id e = e.0 == id

-- `p.owner_id == self._instance_id and p.fencing_token > 0`
abbrev pub is_mine : String → StoredPartition → Bool
is_mine instance p =
    elim p.owner_id [ none ↦ false | some o ↦ o == instance ] && ltb 0 p.fencing_token

abbrev pub has_partition_id : String → StoredPartition → Bool
has_partition_id id p = p.partition_id == id

-- the test of the loop that reaps
unfoldable pub must_reap : List StoredPartition → Entry → Bool
must_reap mine (id, r) = elim (find_where (has_partition_id id) mine) [
  | none ↦ true
  | some current ↦ not (nat_eq current.fencing_token r.lease.fencing_token) || r.is_done
]

-- `running.cancellation.cancel(...)`
abbrev pub cancelled : ℕ → String → RunningPartition → RunningPartition
cancelled monotonic reason r = record r {
  cancellation = (cancel monotonic reason r.cancellation).1;
}

-- what becomes of the task of a reaped entry
unfoldable pub let_go : ℕ → Entry → RunningPartition
let_go monotonic (id, r) =
    if r.is_done then r else record (cancelled monotonic "ownership lost" r) { told_to_stop = true }

-- the loop that reaps: the entries that stay, and the tasks that are let go
unfoldable pub reap : ℕ → List StoredPartition → List Entry → List Entry × List RunningPartition
unfolding must_reap let_go
reap monotonic mine running = (
  select_where (λ e. not (must_reap mine e)) running,
  map (let_go monotonic) (select_where (must_reap mine) running),
)

-- what a task is started with: its lease, and the partition as product code sees it
unfoldable pub open_partition : String → String → StoredPartition → Result RunningPartition
open_partition deployment instance p =
    elim (lease_handle deployment p.partition_id instance p.fencing_token) [
      | err e ↦ err e
      | ok lease ↦ elim (partition p.partition_id p.payload p.weight []) [
        | err e ↦ err e
        | ok shard ↦
            if shard.partition_id == lease.partition_id
            then ok (record {
              lease = lease;
              cancellation = new_source;
              is_done = false;
              told_to_stop = false;
            })
            else err (value_error "partition and lease identifiers must match")
      ]
    ]

-- the loop that starts newly assigned partitions
unfoldable pub start_all :
    String → String → List StoredPartition → List Entry → Db → Result (Unit {0}) × List Entry × Db
unfolding open_partition
start_all deployment instance [] running db = (ok tt, running, db)
start_all deployment instance (p ∷ ps) running db =
    elim (exists_where (has_key p.partition_id) running) [
      | true ↦ start_all deployment instance ps running db
      | false ↦ elim (open_partition deployment instance p) [
        | err e ↦ (err e, running, db)
        | ok r ↦
            start_all deployment instance ps (running ++ (p.partition_id, r) ∷ [])
              (set_partition_status r.lease PartitionStatus.running db).1
      ]
    ]

-- the answer of `renew_lease`, which does not raise
abbrev pub is_renewed : Result Bool → Bool
is_renewed (ok b) = b
is_renewed (err e) = false

-- the loop that renews the live leases
unfoldable pub renew_all : ℕ → ℕ → ℕ → List Entry → Db → List Entry × Db
renew_all monotonic now lease_seconds [] db = ([], db)
renew_all monotonic now lease_seconds ((id, r) ∷ es) db =
    let (answer, db1) = renew_lease now r.lease lease_seconds db in
    let (rest, db2) = renew_all monotonic now lease_seconds es db1 in
    let r' = if is_renewed answer then r else cancelled monotonic "lease renewal rejected" r in
    ((id, r') ∷ rest, db2)

-- how a tick ends: its answer, the dictionary, the tasks let go, and the database
pub record Ticked : Type 0 where
  pub answer : Result ℕ
  pub running : List Entry
  pub released : List RunningPartition
  pub db : Db

-- what follows the loop that starts partitions: the leases are renewed unless it raised
unfoldable pub end_tick :
    ℕ → ℕ → ℕ → List RunningPartition → Result (Unit {0}) × List Entry × Db → Ticked
unfolding renew_all
end_tick monotonic now lease_seconds released (err e, running, db) = record {
  answer = err e;
  running = running;
  released = released;
  db = db;
}
end_tick monotonic now lease_seconds released (ok done, running, db) =
    let (renewed, db1) = renew_all monotonic now lease_seconds running db in
    record { answer = ok (length renewed); running = renewed; released = released; db = db1 }

module _ {P H W : Type 0} where
  -- `if not isinstance(registration, ContinuousRegistration): raise`
  abbrev pub as_continuous : WorkloadRegistration P H W → Result (ContinuousRegistration W)
  as_continuous (WorkloadRegistration.continuous r) = ok r
  as_continuous (WorkloadRegistration.finite r) =
      err (type_error "deployment workload is not continuous")

  module _ {S : Type 0} (collation : String → String → Bool) (registry : RuntimeRegistry P H W S)
      (instance_id : String) (lease_seconds : ℕ) where
    -- what a tick reads before it does anything: the partitions of this instance
    unfoldable pub owned_partitions : String → Tx (List StoredPartition)
    unfolding get_deployment partitions workload
    owned_partitions deployment = do
      found ← get_deployment deployment
      d ← or_raise found (lookup_error "unknown deployment")
      registration ←
          lift (workload d.workload_id d.workload_version WorkloadMode.continuous registry)
      r ← lift (as_continuous registration)
      all_partitions ← partitions collation deployment
      pure (select_where (is_mine instance_id) all_partitions)

    -- what follows the reading
    unfoldable pub run_tick : ℕ → ℕ → String → List StoredPartition → List Entry → Db → Ticked
    unfolding reap start_all end_tick
    run_tick monotonic now deployment mine running db =
        let (kept, released) = reap monotonic mine running in
        end_tick monotonic now lease_seconds released
          (start_all deployment instance_id mine kept db)

    -- `tick`
    unfoldable pub tick : ℕ → ℕ → String → List Entry → Db → Ticked
    unfolding owned_partitions run_tick
    tick monotonic now deployment running db = elim (owned_partitions deployment db).0 [
      | err e ↦ record { answer = err e; running = running; released = []; db = db }
      | ok mine ↦ run_tick monotonic now deployment mine running db
    ]

-- `stop_all`: every source is cancelled, and the tasks that `asyncio.wait` reports as pending at the
-- end of the grace time are told to stop; the dictionary is empty afterwards.
unfoldable pub stop_all : ℕ → (Entry → Bool) → List Entry → List Entry × List RunningPartition
stop_all monotonic is_pending running = (
  [],
  map
      (λ e.
        let r = cancelled monotonic "supervisor stopping" e.1 in
        if is_pending e then (record r { told_to_stop = true }) else r)
      running,
)
