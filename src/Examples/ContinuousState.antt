-- ===== src/Examples/ContinuousState.antt =====
-- Runs of the continuous state store and of the reconciler.
use ptf.Prelude.{◌≡◌, ◌≢◌, refl, true, none, some, [], ◌∷◌, arith, String, eq_iff, ◌==◌}
use ptf.Prelude.Table.{find_where, exists_where}
use ptf.Core.Errors.{ok, err}
use ptf.State.Db.{Db, PartitionRow}
use ptf.State.Outbox.{insert_outbox}
use ptf.State.Continuous.Sync.{has_partition, sync_partitions}
use ptf.State.Continuous.Deployments.{has_deployment_id}
use ptf.State.Continuous.Lease.{acquire_lease, acquire_row}
use ptf.State.Continuous.Emit.{emit, record_checkpoint, stale_emission, stale_checkpoint, dedup_of}
use ptf.State.Continuous.History.{Call, run_calls, acquire_fences_older, acquire_lease_excludes}
use ptf.State.Continuous.Emission.{emit_lem, record_checkpoint_lem}
use ptf.State.Continuous.Retire.{SameLease, sync_partitions-keeps}
use ptf.Control.Admin.{drain}
use ptf.Control.Releasing.{freed}
use ptf.Control.Draining.{drain_lem}
use ptf.Examples.Data.{
  by_key, continuous_db, lapsed_row, lease_3, envelope, one_partition, partition_1,
}

lapsed_found : find_where (has_partition "d1" "p1") continuous_db.partitions ≡ some lapsed_row
unfolding find_where
lapsed_found = refl

acquire_fences_older_example :
    let later =
      run_calls by_key
        (acquire_lease 10 "d1" "p1" "w2" 60 continuous_db).1
        (Call.release lease_3 ∷ []) in
    (emit 20 lease_3 "topic" "e1" envelope later ≡ (err stale_emission, later))
    × (record_checkpoint 20 lease_3 "topic" "e1" envelope later ≡ (err stale_checkpoint, later))
acquire_fences_older_example =
    acquire_fences_older by_key 10 "w2" 60 continuous_db lease_3 lapsed_row
      (Call.release lease_3 ∷ []) 20 "topic" "e1" envelope (one_partition lapsed_row) lapsed_found
      refl (omega arith)

apart : ◌≢◌ {A = String} "w2" "w3"
apart same = ground (arith, eq_iff "w2" "w3")

acquire_lease_excludes_example :
    let held = (acquire_lease 10 "d1" "p1" "w2" 60 continuous_db).1 in
    acquire_lease 60000010 "d1" "p1" "w3" 60 held ≡ (ok none, held)
acquire_lease_excludes_example =
    acquire_lease_excludes 10 60000010 "d1" "p1" "w2" "w3" 60 60 continuous_db lapsed_row
      (one_partition lapsed_row) lapsed_found refl apart (omega arith)

-- the partition as `w2` holds it from 10 on
abbrev taken_row : PartitionRow
taken_row = acquire_row 10 "w2" 60 lapsed_row

abbrev taken_db : Db
taken_db = record continuous_db { partitions = taken_row ∷ [] }

taken_found : find_where (has_partition "d1" "p1") taken_db.partitions ≡ some taken_row
unfolding find_where
taken_found = refl

known_deployment : exists_where (has_deployment_id "d1") taken_db.deployments ≡ true
unfolding exists_where
known_deployment = refl

discovered : exists_where (λ q. q.partition_id == "p1") (partition_1 ∷ []) ≡ true
unfolding exists_where
discovered = refl

emit_lem_example :
    emit 4 lease_3 "topic" "e1" envelope continuous_db
    ≡ insert_outbox 4 "emission" (dedup_of lease_3 "e1") "topic" envelope (some 3) continuous_db
emit_lem_example =
    emit_lem lease_3 continuous_db lapsed_row (one_partition lapsed_row) lapsed_found 4 "topic" "e1"
      envelope

record_checkpoint_lem_example :
    record_checkpoint 9 lease_3 "topic" "c1" envelope continuous_db
    ≡ insert_outbox 9 "checkpoint" (dedup_of lease_3 "c1") "topic" envelope (some 3) continuous_db
record_checkpoint_lem_example =
    record_checkpoint_lem lease_3 continuous_db lapsed_row (one_partition lapsed_row) lapsed_found 9
      "topic" "c1" envelope

sync_partitions-keeps_example :
    (s : PartitionRow) × (find_where
        (has_partition "d1" "p1")
        (sync_partitions by_key "d1" (partition_1 ∷ []) taken_db).1.partitions
      ≡ some s)
    × SameLease taken_row s
sync_partitions-keeps_example =
    sync_partitions-keeps by_key "d1" partition_1 [] taken_db "p1" taken_row known_deployment
      taken_found discovered

drain_lem_example :
    let (answer, after) = drain by_key "d1" taken_db in
    (answer ≡ ok tt)
    × (find_where (has_partition "d1" "p1") after.partitions ≡ some (freed taken_row))
drain_lem_example =
    drain_lem "d1" by_key taken_db "p1" taken_row (one_partition taken_row) known_deployment
      taken_found
