-- ===== src/State/Continuous/History.antt =====
-- Histories: any sequence of the operations of `ContinuousStateStore` that write, by any callers with
-- any arguments, each at a time of its own.
use ptf.Prelude.{
  ℕ, ◌+◌, ◌≤◌, ◌<◌, ◌≡◌, ◌≢◌, refl, String, Bool, true, false, ◌&&◌, Option, none, some, List, [],
  ◌∷◌, arith, nat_eq, nat_eq_iff, eq_iff,
}
use ptf.Prelude.Table.{find_where}
use ptf.Core.Enums.{PartitionStatus, DeploymentStatus}
use ptf.Core.Json.{JsonFields}
use ptf.Core.Envelope.{VersionedEnvelope}
use ptf.Core.Errors.{ok, err}
use ptf.Continuous.Contracts.{Partition, LeaseHandle}
use ptf.State.Db.{Db, PartitionRow, seconds}
use ptf.State.Continuous.Deployments.{create_deployment, transition_deployment}
use ptf.State.Continuous.Sync.{has_partition, sync_partitions}
use ptf.State.Continuous.Lease.{
  acquire_row, acquire_lease, renew_row, renew_lease, release_row, release_lease, release_partition,
  set_status, set_partition_status, holds_lease, holds_live_lease, is_current, may_acquire,
}
use ptf.State.Continuous.Emit.{stale_emission, stale_checkpoint, emit, record_checkpoint}
use ptf.State.Continuous.Exclusion.{IsKeyed, acquire_lease-granted, acquire_lease-refused}
use ptf.State.Continuous.Fencing.{emit-stale, record_checkpoint-stale}
use ptf.State.Continuous.Moves.{Moves, Moves-IsKeyed, Moves-Grown}
use ptf.State.Continuous.Effects.{
  MovesDb, keeps, same_partitions, unmoved, updates_one-Moves, acquire_lease-Moves, emit-Moves,
  record_checkpoint-Moves, sync_partitions-Moves,
}

-- A call of the store, with its arguments and its time.
pub data Call : Type 0 where
  create : String → String → String → Option JsonFields → Call
  transition : String → DeploymentStatus → Call
  sync : String → List Partition → Call
  acquire : ℕ → String → String → String → ℕ → Call
  renew : ℕ → LeaseHandle → ℕ → Call
  release : LeaseHandle → Call
  reclaim : String → String → ℕ → Call
  mark : LeaseHandle → PartitionStatus → Call
  send : ℕ → LeaseHandle → String → String → VersionedEnvelope → Call
  checkpoint : ℕ → LeaseHandle → String → String → VersionedEnvelope → Call

module _ (collation : String → String → Bool) where
  -- The database after a call, whether it returned or raised.
  unfoldable pub step : Db → Call → Db
  step db (create id workload version config) = (create_deployment id workload version config db).1
  step db (transition id status) = (transition_deployment id status db).1
  step db (sync d ps) = (sync_partitions collation d ps db).1
  step db (acquire now d p owner n) = (acquire_lease now d p owner n db).1
  step db (renew now lease n) = (renew_lease now lease n db).1
  step db (release lease) = (release_lease lease db).1
  step db (reclaim d p token) = (release_partition d p token db).1
  step db (mark lease status) = (set_partition_status lease status db).1
  step db (send now lease dest id env) = (emit now lease dest id env db).1
  step db (checkpoint now lease dest key env) = (record_checkpoint now lease dest key env db).1

  unfoldable pub run_calls : Db → List Call → Db
  unfolding step
  run_calls db [] = db
  run_calls db (c ∷ cs) = run_calls (step db c) cs

  step-Moves : (db : Db) (c : Call) → MovesDb db (step db c)
  unfolding step create_deployment transition_deployment renew_lease release_lease release_partition
      set_partition_status
  step-Moves db (create id workload version config) = unmoved db.partitions _ (ground arith)
  step-Moves db (transition id status) = same_partitions db
  step-Moves db (sync d ps) = sync_partitions-Moves collation d ps db
  step-Moves db (acquire now d p owner n) = acquire_lease-Moves now d p owner n db
  step-Moves db (renew now lease n) =
      updates_one-Moves (holds_live_lease now lease) (renew_row now n)
        (keeps (renew_row now n) (λ r. refl) (λ r. refl) (λ r. refl)) db
  step-Moves db (release lease) =
      updates_one-Moves (holds_lease lease) release_row
        (keeps release_row (λ r. refl) (λ r. refl) (λ r. refl)) db
  step-Moves db (reclaim d p token) =
      updates_one-Moves (λ r. has_partition d p r && nat_eq r.fencing_token token) release_row
        (keeps release_row (λ r. refl) (λ r. refl) (λ r. refl)) db
  step-Moves db (mark lease status) =
      updates_one-Moves (holds_lease lease) (set_status status)
        (keeps (set_status status) (λ r. refl) (λ r. refl) (λ r. refl)) db
  step-Moves db (send now lease dest id env) = emit-Moves now lease dest id env db
  step-Moves db (checkpoint now lease dest key env) =
      record_checkpoint-Moves now lease dest key env db

  pub run_calls-Moves : (db : Db) (cs : List Call) → MovesDb db (run_calls db cs)
  unfolding run_calls
  run_calls-Moves db [] = same_partitions db
  run_calls-Moves db (c ∷ cs) = Moves.next (step-Moves db c) (run_calls-Moves (step db c) cs)

  -- Once a partition's token has passed that of a lease, the holder of the lease is fenced for ever:
  -- after any further history its emissions and its checkpoints are refused and change nothing.
  pub passed_token_fences :
      (db : Db) (lease : LeaseHandle) (r : PartitionRow) (cs : List Call) (now : ℕ)
      (destination key : String) (envelope : VersionedEnvelope)
      → IsKeyed db.partitions
      → find_where (has_partition lease.deployment_id lease.partition_id) db.partitions ≡ some r
      → lease.fencing_token < r.fencing_token
      → let later = run_calls db cs in
        (emit now lease destination key envelope later ≡ (err stale_emission, later))
        × (record_checkpoint now lease destination key envelope later
            ≡ (err stale_checkpoint, later))
  passed_token_fences db lease r cs now destination key envelope keyed found passed =
      let moves = run_calls-Moves db cs in
      let (s, e, le) = Moves-Grown lease.deployment_id lease.partition_id r moves found in
      let keyed' = Moves-IsKeyed moves keyed in
      let stale : is_current lease s ≡ false =
        ground (arith, nat_eq_iff s.fencing_token lease.fencing_token) in
      (
        emit-stale lease (run_calls db cs) s keyed' e now destination key envelope
            (ground (arith, stale)),
        record_checkpoint-stale lease (run_calls db cs) s keyed' e now destination key envelope
            stale,
      )

  -- A partition acquired anew is out of reach of every earlier handle, for ever: after any further
  -- history the emissions and checkpoints of a lease with a token up to the one that the partition
  -- had are refused and change nothing.
  pub acquire_fences_older :
      (then_ : ℕ) (owner : String) (n : ℕ) (db : Db) (old : LeaseHandle) (r : PartitionRow)
      (cs : List Call) (now : ℕ) (destination key : String) (envelope : VersionedEnvelope)
      → IsKeyed db.partitions
      → find_where (has_partition old.deployment_id old.partition_id) db.partitions ≡ some r
      → may_acquire then_ owner r ≡ true
      → old.fencing_token ≤ r.fencing_token
      → let later =
          run_calls (acquire_lease then_ old.deployment_id old.partition_id owner n db).1 cs in
        (emit now old destination key envelope later ≡ (err stale_emission, later))
        × (record_checkpoint now old destination key envelope later ≡ (err stale_checkpoint, later))
  acquire_fences_older then_ owner n db old r cs now destination key envelope keyed found free
        older =
      passed_token_fences (acquire_lease then_ old.deployment_id old.partition_id owner n db).1 old
        (acquire_row then_ owner n r) cs now destination key envelope
        (Moves-IsKeyed (acquire_lease-Moves then_ old.deployment_id old.partition_id owner n db)
          keyed)
        (acquire_lease-granted then_ old.deployment_id old.partition_id owner n db r keyed found
          free).1
        (omega arith)

-- While a lease that was granted runs, no other owner gets the partition: the attempt returns None
-- and writes nothing.
pub acquire_lease_excludes :
    (now later : ℕ) (d p owner other : String) (n m : ℕ) (db : Db) (r : PartitionRow)
    → IsKeyed db.partitions
    → find_where (has_partition d p) db.partitions ≡ some r
    → may_acquire now owner r ≡ true
    → owner ≢ other
    → later ≤ now + seconds n
    → let held = (acquire_lease now d p owner n db).1 in
      acquire_lease later d p other m held ≡ (ok none, held)
acquire_lease_excludes now later d p owner other n m db r keyed found free differ early =
    acquire_lease-refused later d p other m (acquire_lease now d p owner n db).1
      (acquire_row now owner n r) (Moves-IsKeyed (acquire_lease-Moves now d p owner n db) keyed)
      (acquire_lease-granted now d p owner n db r keyed found free).1
      (ground (arith, eq_iff owner other))
