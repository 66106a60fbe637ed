-- ===== src/State/Continuous/Emit.antt =====
-- Fenced writes through the outbox: `emit` and `record_checkpoint` of state/continuous.py.
use Prim.Native.String.{◌++◌}
use ptf.Prelude.{ℕ, String, Bool, some, nat_eq, not}
use ptf.Core.Envelope.{VersionedEnvelope}
use ptf.Core.Errors.{Error, invariant_violation}
use ptf.Continuous.Contracts.{LeaseHandle}
use ptf.State.Db.{PartitionRow}
use ptf.State.Tx.{Tx, transaction, raise_if, ◌>>=◌, ◌>>◌}
use ptf.State.Outbox.{insert_outbox}
use ptf.State.Continuous.Lease.{holds_lease, holds_live_lease, update_partitions}

-- what an `UPDATE` that sets `updated_at` alone does to the row
abbrev pub touch_row : PartitionRow → PartitionRow
touch_row r = r

abbrev pub stale_emission : Error
stale_emission = invariant_violation "emission rejected: stale or expired fencing token"

abbrev pub stale_checkpoint : Error
stale_checkpoint = invariant_violation "checkpoint rejected: stale fencing token"

-- the f-string of the `dedup_key`
abbrev pub dedup_of : LeaseHandle → String → String
dedup_of lease key = lease.deployment_id ++ (":" ++ (lease.partition_id ++ (":" ++ key)))

-- the fencing check
unfoldable pub check_fence : (PartitionRow → Bool) → Error → Tx (Unit {0})
unfolding update_partitions
check_fence test stale = do
  changed ← update_partitions test touch_row
  raise_if (not (nat_eq changed 1)) stale

unfoldable pub emit : ℕ → LeaseHandle → String → String → VersionedEnvelope → Tx ℕ
unfolding check_fence insert_outbox
emit now lease destination stable_id envelope = transaction (
    check_fence (holds_live_lease now lease) stale_emission
    >> insert_outbox now "emission" (dedup_of lease stable_id) destination envelope
        (some lease.fencing_token))

unfoldable pub record_checkpoint : ℕ → LeaseHandle → String → String → VersionedEnvelope → Tx ℕ
unfolding check_fence insert_outbox
record_checkpoint now lease destination checkpoint_key envelope = transaction (
    check_fence (holds_lease lease) stale_checkpoint
    >> insert_outbox now "checkpoint" (dedup_of lease checkpoint_key) destination envelope
        (some lease.fencing_token))
