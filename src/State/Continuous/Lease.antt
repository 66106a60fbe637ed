-- ===== src/State/Continuous/Lease.antt =====
-- Leases: `acquire_lease`, `renew_lease`, `release_lease`, `release_partition`,
-- `set_partition_status` of state/continuous.py.
use ptf.Prelude.{
  ℕ, ◌+◌, String, Bool, true, false, ◌==◌, ◌&&◌, ◌||◌, Option, none, some, ltb, nat_eq,
}
use ptf.Prelude.Table.{find_where, update_where, count_where}
use ptf.Core.Enums.{PartitionStatus, is_leasable}
use ptf.Core.Errors.{Result, ok, err}
use ptf.Continuous.Contracts.{LeaseHandle, lease_handle}
use ptf.State.Db.{PartitionRow, seconds}
use ptf.State.Tx.{Tx, pure, query, lift, ◌>>=◌, ◌>>◌}
use ptf.State.Continuous.Sync.{has_partition}

-- `owner_id = $3`
abbrev pub owned_by : String → PartitionRow → Bool
owned_by owner r = elim r.owner_id [ none ↦ false | some o ↦ o == owner ]

-- `lease_expires_at > now()`
abbrev pub is_live : ℕ → PartitionRow → Bool
is_live now r = elim r.lease_expires_at [ none ↦ false | some t ↦ ltb now t ]

-- `lease_expires_at IS NULL OR lease_expires_at < now() OR owner_id = $3`
abbrev pub is_free_for : ℕ → String → PartitionRow → Bool
is_free_for now owner r =
    elim r.lease_expires_at [ none ↦ true | some t ↦ ltb t now ] || owned_by owner r

-- the conditions of `acquire_lease` on the row that the key finds
abbrev pub may_acquire : ℕ → String → PartitionRow → Bool
may_acquire now owner r = is_leasable r.status && is_free_for now owner r

abbrev pub acquire_row : ℕ → String → ℕ → PartitionRow → PartitionRow
acquire_row now owner lease_seconds r = record r {
  owner_id = some owner;
  fencing_token = r.fencing_token + 1;
  lease_expires_at = some (now + seconds lease_seconds);
  status = PartitionStatus.assigned;
}

-- `UPDATE continuous_partitions SET ... WHERE ...`, with its row count
unfoldable pub update_partitions : (PartitionRow → Bool) → (PartitionRow → PartitionRow) → Tx ℕ
update_partitions test write = do
  changed ← query (λ db. count_where test db.partitions)
  (λ db. pure tt (record db { partitions = update_where test write db.partitions }))
  pure changed

abbrev pub to_handle : String → String → String → Option PartitionRow → Result (Option LeaseHandle)
to_handle deployment id owner none = ok none
to_handle deployment id owner (some r) = elim (lease_handle deployment id owner r.fencing_token) [
  | ok lease ↦ ok (some lease)
  | err e ↦ err e
]

-- `acquire_lease`; the statement returns the row as written.
unfoldable pub acquire_lease : ℕ → String → String → String → ℕ → Tx (Option LeaseHandle)
unfolding update_partitions
acquire_lease now deployment id owner lease_seconds = do
  let target : PartitionRow → Bool = λ r. has_partition deployment id r && may_acquire now owner r
  found ← query (λ db. find_where target db.partitions)
  _ ← update_partitions target (acquire_row now owner lease_seconds)
  lift (
      to_handle deployment id owner
        (elim found [ none ↦ none | some r ↦ some (acquire_row now owner lease_seconds r) ]))

-- `... AND owner_id = $3 AND fencing_token = $4`
abbrev pub is_current : LeaseHandle → PartitionRow → Bool
is_current lease r = owned_by lease.owner_id r && nat_eq r.fencing_token lease.fencing_token

abbrev pub holds_lease : LeaseHandle → PartitionRow → Bool
holds_lease lease r = has_partition lease.deployment_id lease.partition_id r && is_current lease r

-- the same, `AND lease_expires_at > now()`
abbrev pub holds_live_lease : ℕ → LeaseHandle → PartitionRow → Bool
holds_live_lease now lease r =
    has_partition lease.deployment_id lease.partition_id r && (is_current lease r && is_live now r)

-- `return changed == "UPDATE 1"`
abbrev pub updates_one : (PartitionRow → Bool) → (PartitionRow → PartitionRow) → Tx Bool
updates_one test write = do changed ← update_partitions test write; pure (nat_eq changed 1)

abbrev pub renew_row : ℕ → ℕ → PartitionRow → PartitionRow
renew_row now lease_seconds r = record r { lease_expires_at = some (now + seconds lease_seconds) }

unfoldable pub renew_lease : ℕ → LeaseHandle → ℕ → Tx Bool
unfolding update_partitions
renew_lease now lease lease_seconds =
    updates_one (holds_live_lease now lease) (renew_row now lease_seconds)

abbrev pub release_row : PartitionRow → PartitionRow
release_row r = record r {
  owner_id = none;
  lease_expires_at = none;
  status = PartitionStatus.unassigned;
}

unfoldable pub release_lease : LeaseHandle → Tx Bool
unfolding update_partitions
release_lease lease = updates_one (holds_lease lease) release_row

unfoldable pub release_partition : String → String → ℕ → Tx Bool
unfolding update_partitions
release_partition deployment id expected =
    updates_one (λ r. has_partition deployment id r && nat_eq r.fencing_token expected) release_row

abbrev pub set_status : PartitionStatus → PartitionRow → PartitionRow
set_status status r = record r { status = status }

unfoldable pub set_partition_status : LeaseHandle → PartitionStatus → Tx Bool
unfolding update_partitions
set_partition_status lease status = updates_one (holds_lease lease) (set_status status)
