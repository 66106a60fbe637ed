-- ===== src/State/Continuous/Emission.antt =====
-- What a current owner writes.
use ptf.Prelude.{ℕ, ◌≡◌, refl, ◌∙◌, String, ◌&&◌, some, if◌then◌else◌, Bool-cases, inl, inr}
use ptf.Prelude.Table.{find_where}
use ptf.Core.Envelope.{VersionedEnvelope}
use ptf.Core.Errors.{ok, err}
use ptf.Continuous.Contracts.{LeaseHandle}
use ptf.State.Db.{Db, PartitionRow}
use ptf.State.Tx.{transaction-ok, bind-ok, ◌>>◌}
use ptf.State.Outbox.{insert_outbox}
use ptf.State.Outbox.Dedup.{insert_outbox-ok}
use ptf.State.Continuous.Sync.{has_partition}
use ptf.State.Continuous.Lease.{is_live, is_current, holds_lease, holds_live_lease}
use ptf.State.Continuous.Emit.{
  stale_emission, stale_checkpoint, dedup_of, check_fence, emit, record_checkpoint,
}
use ptf.State.Continuous.Exclusion.{IsKeyed}
use ptf.State.Continuous.Fencing.{check_fence_lem, emit-stale, record_checkpoint-stale}

module _ (lease : LeaseHandle) (db : Db) (r : PartitionRow) (keyed : IsKeyed db.partitions)
    (found : find_where (has_partition lease.deployment_id lease.partition_id) db.partitions
      ≡ some r)
    (now : ℕ) (destination key : String) (envelope : VersionedEnvelope) where
  -- An emission of the current owner, before the expiry, is exactly the insert of one message that
  -- carries the lease's token; any other is refused and writes nothing.
  pub emit_lem : emit now lease destination key envelope db ≡ (
      if is_current lease r && is_live now r
      then insert_outbox now "emission"
          (dedup_of lease key)
          destination
          envelope
          (some lease.fencing_token)
          db
      else (err stale_emission, db))
  unfolding emit
  emit_lem =
      let insert =
        insert_outbox now "emission" (dedup_of lease key) destination envelope
          (some lease.fencing_token) in
      elim (Bool-cases (is_current lease r && is_live now r)) [
        | inl may ↦
            let passed : check_fence (holds_live_lease now lease) stale_emission db ≡ (ok tt, db) =
              check_fence_lem lease db r keyed found (λ x. is_current lease x && is_live now x)
                stale_emission
              ∙ rw may refl in
            rw may (
              transaction-ok (check_fence (holds_live_lease now lease) stale_emission >> insert)
                insert db
                (bind-ok (check_fence (holds_live_lease now lease) stale_emission) (λ _. insert) db
                  tt db passed)
                (insert_outbox-ok now "emission" (dedup_of lease key) destination envelope
                  (some lease.fencing_token) db))
        | inr stale ↦
            rw stale (emit-stale lease db r keyed found now destination key envelope stale)
      ]

  -- A checkpoint of the current owner is exactly the insert of one marker that carries the lease's
  -- token, even after the expiry; any other is refused and writes nothing.
  pub record_checkpoint_lem : record_checkpoint now lease destination key envelope db ≡ (
      if is_current lease r
      then insert_outbox now "checkpoint"
          (dedup_of lease key)
          destination
          envelope
          (some lease.fencing_token)
          db
      else (err stale_checkpoint, db))
  unfolding record_checkpoint
  record_checkpoint_lem =
      let insert =
        insert_outbox now "checkpoint" (dedup_of lease key) destination envelope
          (some lease.fencing_token) in
      elim (Bool-cases (is_current lease r)) [
        | inl may ↦
            let passed : check_fence (holds_lease lease) stale_checkpoint db ≡ (ok tt, db) =
              check_fence_lem lease db r keyed found (is_current lease) stale_checkpoint
              ∙ rw may refl in
            rw may (
              transaction-ok (check_fence (holds_lease lease) stale_checkpoint >> insert) insert db
                (bind-ok (check_fence (holds_lease lease) stale_checkpoint) (λ _. insert) db tt db
                  passed)
                (insert_outbox-ok now "checkpoint" (dedup_of lease key) destination envelope
                  (some lease.fencing_token) db))
        | inr stale ↦
            rw stale
              (record_checkpoint-stale lease db r keyed found now destination key envelope stale)
      ]
