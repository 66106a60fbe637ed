-- ===== src/State/Continuous/Fencing.antt =====
-- What a handle may still write: each fenced operation on both branches.
use ptf.Prelude.{
  ℕ, ◌≡◌, refl, ap, ◌∙◌, String, Bool, false, ◌&&◌, some, List, [], ◌∷◌, arith, if◌then◌else◌,
  Bool-cases, inl, inr,
}
use ptf.Prelude.Table.{
  find_where, update_where, count_where, find-update, count-and, find_satisfies,
}
use ptf.Core.Enums.{PartitionStatus}
use ptf.Core.Envelope.{VersionedEnvelope}
use ptf.Core.Errors.{ok, err, Error}
use ptf.Continuous.Contracts.{LeaseHandle}
use ptf.State.Db.{Db, PartitionRow}
use ptf.State.Tx.{transaction-err, bind-err, ◌>>◌}
use ptf.State.Outbox.{insert_outbox}
use ptf.State.Continuous.Sync.{has_partition}
use ptf.State.Continuous.Lease.{
  is_live, is_current, holds_lease, holds_live_lease, renew_row, renew_lease, release_row,
  release_lease, set_status, set_partition_status,
}
use ptf.State.Continuous.Emit.{
  touch_row, stale_emission, stale_checkpoint, dedup_of, check_fence, emit, record_checkpoint,
}
use ptf.State.Continuous.Exclusion.{IsKeyed}

update-touch : (p : PartitionRow → Bool) (xs : List PartitionRow) → update_where p touch_row xs ≡ xs
unfolding update_where
update-touch p [] = refl
update-touch p (x ∷ xs) = ground (arith, update-touch p xs)

module _ (lease : LeaseHandle) (db : Db) (r : PartitionRow) (keyed : IsKeyed db.partitions)
    (found : find_where (has_partition lease.deployment_id lease.partition_id) db.partitions
      ≡ some r) where
  abbrev of_lease : PartitionRow → Bool
  of_lease = has_partition lease.deployment_id lease.partition_id

  count-fence :
      (q : PartitionRow → Bool)
      → count_where (λ x. of_lease x && q x) db.partitions ≡ (if q r then 1 else 0)
  count-fence q =
      count-and of_lease q db.partitions r (keyed lease.deployment_id lease.partition_id) found

  -- the fencing check reads one row and writes nothing
  pub check_fence_lem :
      (q : PartitionRow → Bool) (stale : Error)
      → check_fence (λ x. of_lease x && q x) stale db
        ≡ (if q r then (ok tt, db) else (err stale, db))
  unfolding check_fence
  check_fence_lem q stale = elim (Bool-cases (q r)) [
    | inl t ↦ rw (count-fence q, t, update-touch (λ x. of_lease x && q x) db.partitions) refl
    | inr f ↦ rw (count-fence q, f, update-touch (λ x. of_lease x && q x) db.partitions) refl
  ]

  -- An emission under a token that is not the partition's, by another owner or after the expiry is
  -- refused, and writes nothing.
  pub emit-stale :
      (now : ℕ) (destination stable_id : String) (envelope : VersionedEnvelope)
      → (is_current lease r && is_live now r) ≡ false
      → emit now lease destination stable_id envelope db ≡ (err stale_emission, db)
  unfolding emit
  emit-stale now destination stable_id envelope stale =
      transaction-err
        (check_fence (holds_live_lease now lease) stale_emission
          >> insert_outbox now "emission" (dedup_of lease stable_id) destination envelope
              (some lease.fencing_token))
        db stale_emission
        (ap (λ x. x.0)
          (bind-err (check_fence (holds_live_lease now lease) stale_emission)
            (λ _.
              insert_outbox now "emission" (dedup_of lease stable_id) destination envelope
                (some lease.fencing_token))
            db stale_emission db
            (check_fence_lem (λ x. is_current lease x && is_live now x) stale_emission
              ∙ rw stale refl)))

  -- A checkpoint under a token that is not the partition's or by another owner is refused, and
  -- writes nothing.
  pub record_checkpoint-stale :
      (now : ℕ) (destination key : String) (envelope : VersionedEnvelope)
      → is_current lease r ≡ false
      → record_checkpoint now lease destination key envelope db ≡ (err stale_checkpoint, db)
  unfolding record_checkpoint
  record_checkpoint-stale now destination key envelope stale =
      transaction-err
        (check_fence (holds_lease lease) stale_checkpoint
          >> insert_outbox now "checkpoint" (dedup_of lease key) destination envelope
              (some lease.fencing_token))
        db stale_checkpoint
        (ap (λ x. x.0)
          (bind-err (check_fence (holds_lease lease) stale_checkpoint)
            (λ _.
              insert_outbox now "checkpoint" (dedup_of lease key) destination envelope
                (some lease.fencing_token))
            db stale_checkpoint db
            (check_fence_lem (is_current lease) stale_checkpoint ∙ rw stale refl)))

  -- Renewal succeeds exactly for the current token of a lease that has not expired, and then moves
  -- nothing but the expiry; otherwise it changes nothing.
  pub renew_lease_lem :
      (now lease_seconds : ℕ)
      → let (answer, after) = renew_lease now lease lease_seconds db in
        (answer ≡ ok (is_current lease r && is_live now r))
        × (find_where of_lease after.partitions
            ≡ some
                (if is_current lease r && is_live now r then renew_row now lease_seconds r else r))
  unfolding renew_lease
  renew_lease_lem now lease_seconds = ground (
    arith,
    count-fence (λ x. is_current lease x && is_live now x),
    find-update (holds_live_lease now lease) of_lease (renew_row now lease_seconds) db.partitions
        (λ x. refl),
    find_satisfies of_lease db.partitions r found,
  )

  -- Release succeeds exactly for the current token, expired or not, and frees the partition;
  -- otherwise it changes nothing of it.
  pub release_lease_lem :
      let (answer, after) = release_lease lease db in
      (answer ≡ ok (is_current lease r))
      × (find_where of_lease after.partitions
          ≡ some (if is_current lease r then release_row r else r))
  unfolding release_lease
  release_lease_lem = ground (
    arith,
    count-fence (is_current lease),
    find-update (holds_lease lease) of_lease release_row db.partitions (λ x. refl),
    find_satisfies of_lease db.partitions r found,
  )

  -- A status is set exactly under the current token, and nothing else is moved.
  pub set_partition_status_lem :
      (status : PartitionStatus)
      → let (answer, after) = set_partition_status lease status db in
        (answer ≡ ok (is_current lease r))
        × (find_where of_lease after.partitions
            ≡ some (if is_current lease r then set_status status r else r))
  unfolding set_partition_status
  set_partition_status_lem status = ground (
    arith,
    count-fence (is_current lease),
    find-update (holds_lease lease) of_lease (set_status status) db.partitions (λ x. refl),
    find_satisfies of_lease db.partitions r found,
  )
