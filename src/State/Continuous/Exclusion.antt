-- ===== src/State/Continuous/Exclusion.antt =====
-- Acquisition of leases.
use ptf.Prelude.{ℕ, ◌+◌, ◌≤◌, ◌≡◌, refl, String, true, false, ◌&&◌, none, some, List, arith}
use ptf.Prelude.Table.{
  find_where, count_where, update-none, find-update, find-and, count-and, find_satisfies,
}
use ptf.Core.Errors.{ok}
use ptf.Continuous.Contracts.{LeaseHandle, lease_handle}
use ptf.State.Db.{Db, PartitionRow}
use ptf.State.Continuous.Sync.{has_partition}
use ptf.State.Continuous.Lease.{may_acquire, acquire_row, acquire_lease}

-- `PRIMARY KEY (deployment_id, partition_id)`
abbrev pub IsKeyed : List PartitionRow → Type 0
IsKeyed rows = (d p : String) → count_where (has_partition d p) rows ≤ 1

-- the handle of the lease that an acquisition of `r` gives
abbrev pub granted : String → String → String → PartitionRow → LeaseHandle
granted d p owner r = record {
  deployment_id = d;
  partition_id = p;
  owner_id = owner;
  fencing_token = r.fencing_token + 1;
}

module _ (now : ℕ) (d p owner : String) (lease_seconds : ℕ) (db : Db) (r : PartitionRow)
    (keyed : IsKeyed db.partitions)
    (found : find_where (has_partition d p) db.partitions ≡ some r) where
  -- A partition that is not free for the caller is left alone.
  pub acquire_lease-refused :
      may_acquire now owner r ≡ false → acquire_lease now d p owner lease_seconds db ≡ (ok none, db)
  unfolding acquire_lease
  acquire_lease-refused held = ground (
    arith,
    find-and (has_partition d p) (may_acquire now owner) db.partitions r (keyed d p) found,
    count-and (has_partition d p) (may_acquire now owner) db.partitions r (keyed d p) found,
    update-none (λ x. has_partition d p x && may_acquire now owner x)
        (acquire_row now owner lease_seconds) db.partitions,
  )

  -- A partition that is free for the caller becomes the caller's, under the next token.
  pub acquire_lease-granted :
      may_acquire now owner r ≡ true
      → ((acquire_lease now d p owner lease_seconds db).0 ≡ ok (some (granted d p owner r)))
        × (find_where
              (has_partition d p)
              (acquire_lease now d p owner lease_seconds db).1.partitions
            ≡ some (acquire_row now owner lease_seconds r))
  unfolding acquire_lease lease_handle
  acquire_lease-granted free = ground (
    arith,
    find-and (has_partition d p) (may_acquire now owner) db.partitions r (keyed d p) found,
    find-update (λ x. has_partition d p x && may_acquire now owner x) (has_partition d p)
        (acquire_row now owner lease_seconds) db.partitions (λ x. refl),
    find_satisfies (has_partition d p) db.partitions r found,
  )
