-- ===== src/State/Workers/Liveness.antt =====
-- How the liveness of a worker moves.
use ptf.Prelude.{ℕ, ◌+◌, ◌<◌, ◌≡◌, refl, ap, String, false, Option, none, some, List, arith, All}
use ptf.Prelude.Table.{
  find_where, update_where, find-update, find_satisfies, All-updated, count-none,
}
use ptf.Core.Errors.{ok}
use ptf.State.Db.{Db, WorkerRow, WorkerStatus, seconds}
use ptf.State.Workers.{has_instance_id, beat_row, heartbeat, mark_row, is_stale, mark_stale_dead}

-- After a sweep for stale workers, none that is not dead has a heartbeat older than the threshold,
-- and a second sweep at the same time finds nothing.
pub mark_stale_dead_lem :
    (now stale_after : ℕ) (db : Db)
    → let after = (mark_stale_dead now stale_after db).1 in
      All (λ r. is_stale now stale_after r ≡ false) after.workers
      × ((mark_stale_dead now stale_after after).0 ≡ ok 0)
unfolding mark_stale_dead
mark_stale_dead_lem now stale_after db =
    (fresh, ap ok (count-none (is_stale now stale_after) swept fresh))
  where
    swept : List WorkerRow
    swept = update_where (is_stale now stale_after) (mark_row WorkerStatus.dead) db.workers

    fresh : All (λ r. is_stale now stale_after r ≡ false) swept
    fresh =
        All-updated (λ r. is_stale now stale_after r ≡ false) (is_stale now stale_after)
          (mark_row WorkerStatus.dead) db.workers (λ r _. refl) (λ r e. e)

-- A worker that is draining and misses its heartbeats loses the mark: the sweep makes it dead, and
-- its next heartbeat makes it active.
pub stale_draining_revives :
    (now stale_after later : ℕ) (revision : Option String) (db : Db) (id : String) (r : WorkerRow)
    → find_where (has_instance_id id) db.workers ≡ some r
    → r.status ≡ WorkerStatus.draining
    → r.last_heartbeat_at + seconds stale_after < now
    → let swept = (mark_stale_dead now stale_after db).1 in
      let after = (heartbeat later id revision swept).1 in
      (find_where (has_instance_id id) after.workers
        ≡ some (beat_row later revision (mark_row WorkerStatus.dead r)))
      × ((beat_row later revision (mark_row WorkerStatus.dead r)).status ≡ WorkerStatus.active)
unfolding mark_stale_dead heartbeat
stale_draining_revives now stale_after later revision db id r found draining stale = (
  ground (
    arith,
    find-update (is_stale now stale_after) (has_instance_id id) (mark_row WorkerStatus.dead)
        db.workers (λ x. refl),
    find-update (has_instance_id id) (has_instance_id id) (beat_row later revision)
        (update_where (is_stale now stale_after) (mark_row WorkerStatus.dead) db.workers)
        (beat-key later revision),
    find_satisfies (has_instance_id id) db.workers r found,
  ),
  beat-status revision,
)
  where
    beat-key :
        (t : ℕ) (v : Option String) (x : WorkerRow)
        → has_instance_id id (beat_row t v x) ≡ has_instance_id id x
    beat-key t none x = refl
    beat-key t (some v) x = refl

    beat-status :
        (v : Option String)
        → (beat_row later v (mark_row WorkerStatus.dead r)).status ≡ WorkerStatus.active
    beat-status none = refl
    beat-status (some v) = refl
