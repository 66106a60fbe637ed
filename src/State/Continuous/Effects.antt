-- ===== src/State/Continuous/Effects.antt =====
-- What each operation of state/continuous.py changes in the table of partitions.
use ptf.Prelude.{
  ℕ, ◌≡◌, refl, String, Bool, Option, some, List, [], ◌∷◌, arith, Bool-cases, inl, inr, nat_eq, not,
}
use ptf.Prelude.Table.{exists_where}
use ptf.Core.Envelope.{VersionedEnvelope}
use ptf.Core.Errors.{Error}
use ptf.Continuous.Contracts.{Partition, LeaseHandle}
use ptf.State.Db.{Db, PartitionRow}
use ptf.State.Tx.{Tx, pure, query, ◌>>◌, raise_if}
use ptf.State.Steps.{Steps, Steps-bind, Steps-then, Steps-transaction}
use ptf.State.Outbox.{insert_outbox}
use ptf.State.Continuous.Deployments.{has_deployment_id}
use ptf.State.Continuous.Sync.{
  has_partition, refresh_row, upsert_partition, upsert_partitions, is_missing, retire_row,
  retire_missing, partitions_of, sync_partitions, StoredPartition,
}
use ptf.State.Continuous.Lease.{
  acquire_row, acquire_lease, update_partitions, updates_one, holds_lease, holds_live_lease,
}
use ptf.State.Continuous.Emit.{
  touch_row, stale_emission, stale_checkpoint, dedup_of, check_fence, emit, record_checkpoint,
}
use ptf.State.Continuous.Moves.{Moves, Raises}

abbrev pub MovesDb : Db → Db → Type 0
MovesDb a b = Moves a.partitions b.partitions

pub same_partitions : (db : Db) → MovesDb db db
same_partitions db = Moves.same db.partitions

join_partitions : (a b c : Db) → MovesDb a b → MovesDb b c → MovesDb a c
join_partitions a b c h k = Moves.next h k

pub unmoved : (xs ys : List PartitionRow) → ys ≡ xs → Moves xs ys
unmoved xs ys e = rw e (Moves.same xs)

acquire_row-Raises : (now : ℕ) (owner : String) (n : ℕ) → Raises (acquire_row now owner n)
acquire_row-Raises now owner n = record {
  same_deployment = λ r. refl;
  same_partition = λ r. refl;
  token = λ r. omega arith;
}

module _ (f : PartitionRow → PartitionRow)
    (d : (r : PartitionRow) → (f r).deployment_id ≡ r.deployment_id)
    (p : (r : PartitionRow) → (f r).partition_id ≡ r.partition_id)
    (t : (r : PartitionRow) → (f r).fencing_token ≡ r.fencing_token) where
  -- a write that leaves the token alone
  pub keeps : Raises f
  keeps = record { same_deployment = d; same_partition = p; token = λ r. omega (arith, t r) }

pub update_partitions-Moves :
    (test : PartitionRow → Bool) (f : PartitionRow → PartitionRow)
    → Raises f
    → Steps MovesDb (update_partitions test f)
unfolding update_partitions
update_partitions-Moves test f up db = Moves.write test f db.partitions up

pub updates_one-Moves :
    (test : PartitionRow → Bool) (f : PartitionRow → PartitionRow)
    → Raises f
    → Steps MovesDb (updates_one test f)
unfolding update_partitions
updates_one-Moves test f up db = Moves.write test f db.partitions up

pub acquire_lease-Moves :
    (now : ℕ) (d p owner : String) (n : ℕ) → Steps MovesDb (acquire_lease now d p owner n)
unfolding acquire_lease
acquire_lease-Moves now d p owner n db =
    Moves.write _ (acquire_row now owner n) db.partitions (acquire_row-Raises now owner n)

pub insert_outbox-Moves :
    (now : ℕ) (kind key dest : String) (env : VersionedEnvelope) (token : Option ℕ)
    → Steps MovesDb (insert_outbox now kind key dest env token)
unfolding insert_outbox
insert_outbox-Moves now kind key dest env token db = unmoved db.partitions _ (ground arith)

pub check_fence-Moves :
    (test : PartitionRow → Bool) (e : Error) → Steps MovesDb (check_fence test e)
unfolding check_fence
check_fence-Moves test e =
    Steps-bind MovesDb same_partitions join_partitions (update_partitions test touch_row)
      (λ n. raise_if (not (nat_eq n 1)) e)
      (update_partitions-Moves test touch_row (keeps touch_row (λ r. refl) (λ r. refl) (λ r. refl)))
      (λ n db. same_partitions db)

pub emit-Moves :
    (now : ℕ) (lease : LeaseHandle) (dest id : String) (env : VersionedEnvelope)
    → Steps MovesDb (emit now lease dest id env)
unfolding emit
emit-Moves now lease dest id env =
    Steps-transaction MovesDb same_partitions join_partitions
      (check_fence (holds_live_lease now lease) stale_emission
        >> insert_outbox now "emission" (dedup_of lease id) dest env (some lease.fencing_token))
      (Steps-then MovesDb same_partitions join_partitions
        (check_fence (holds_live_lease now lease) stale_emission)
        (insert_outbox now "emission" (dedup_of lease id) dest env (some lease.fencing_token))
        (check_fence-Moves (holds_live_lease now lease) stale_emission)
        (insert_outbox-Moves now "emission" (dedup_of lease id) dest env
          (some lease.fencing_token)))

pub record_checkpoint-Moves :
    (now : ℕ) (lease : LeaseHandle) (dest key : String) (env : VersionedEnvelope)
    → Steps MovesDb (record_checkpoint now lease dest key env)
unfolding record_checkpoint
record_checkpoint-Moves now lease dest key env =
    Steps-transaction MovesDb same_partitions join_partitions
      (check_fence (holds_lease lease) stale_checkpoint
        >> insert_outbox now "checkpoint" (dedup_of lease key) dest env (some lease.fencing_token))
      (Steps-then MovesDb same_partitions join_partitions
        (check_fence (holds_lease lease) stale_checkpoint)
        (insert_outbox now "checkpoint" (dedup_of lease key) dest env (some lease.fencing_token))
        (check_fence-Moves (holds_lease lease) stale_checkpoint)
        (insert_outbox-Moves now "checkpoint" (dedup_of lease key) dest env
          (some lease.fencing_token)))

pub upsert_partition-Moves : (d : String) (p : Partition) → Steps MovesDb (upsert_partition d p)
unfolding upsert_partition
upsert_partition-Moves d p db =
    elim (Bool-cases (exists_where (has_partition d p.partition_id) db.partitions)) [
      | inl known ↦ rw known (
          Moves.write (has_partition d p.partition_id) (refresh_row p) db.partitions
            (keeps (refresh_row p) (λ r. refl) (λ r. refl) (λ r. refl)))
      | inr fresh ↦ elim (Bool-cases (exists_where (has_deployment_id d) db.deployments)) [
        | inl parent ↦ rw (fresh, parent) (Moves.add d p db.partitions fresh)
        | inr orphan ↦ rw (fresh, orphan) (same_partitions db)
      ]
    ]

pub upsert_partitions-Moves :
    (d : String) (ps : List Partition) → Steps MovesDb (upsert_partitions d ps)
unfolding upsert_partitions
upsert_partitions-Moves d [] db = same_partitions db
upsert_partitions-Moves d (p ∷ ps) db =
    Steps-then MovesDb same_partitions join_partitions (upsert_partition d p)
      (upsert_partitions d ps) (upsert_partition-Moves d p) (upsert_partitions-Moves d ps) db

pub retire_missing-Moves :
    (d : String) (ps : List Partition) (db : Db) → MovesDb db (retire_missing d ps db)
unfolding retire_missing
retire_missing-Moves d [] db = same_partitions db
retire_missing-Moves d (p ∷ ps) db =
    Moves.write (is_missing d (p ∷ ps)) retire_row db.partitions
      (keeps retire_row (λ r. refl) (λ r. refl) (λ r. refl))

pub sync_partitions-Moves :
    (collation : String → String → Bool) (d : String) (ps : List Partition)
    → Steps MovesDb (sync_partitions collation d ps)
unfolding sync_partitions
sync_partitions-Moves collation d ps =
    Steps-transaction MovesDb same_partitions join_partitions
      (upsert_partitions d ps >> retire_and_read)
      (Steps-then MovesDb same_partitions join_partitions (upsert_partitions d ps) retire_and_read
        (upsert_partitions-Moves d ps) (λ db. retire_missing-Moves d ps db))
  where
    retire_and_read : Tx (List StoredPartition)
    retire_and_read = (λ db. pure tt (retire_missing d ps db)) >> query (partitions_of collation d)
