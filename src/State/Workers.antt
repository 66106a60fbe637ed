-- ===== src/State/Workers.antt =====
-- Worker instances: src/distributed_runtime/state/workers.py.
pub mod Liveness
use ptf.Prelude.{
  ℕ, ◌+◌, String, Bool, true, false, ◌==◌, ◌&&◌, Option, none, some, List, [], ◌∷◌, ◌++◌, map, ltb,
  nat_eq, not, if◌then◌else◌,
}
use ptf.Prelude.Table.{find_where, update_where, count_where, exists_where, select_where, order_by}
use ptf.Core.Errors.{Error, value_error, lookup_error, assertion_error}
use ptf.State.Db.{Db, WorkerRow, WorkerStatus, seconds}
use ptf.State.Tx.{Tx, pure, query, or_raise, raise_if, ◌>>=◌, ◌>>◌}

-- `class WorkerInstance`
pub record WorkerInstance : Type 0 where
  pub instance_id : String
  pub execution_classes : List String
  pub revision : String
  pub last_heartbeat_at : ℕ
  pub status : WorkerStatus

-- `_worker_from_row`
abbrev pub worker_from_row : WorkerRow → WorkerInstance
worker_from_row r = record {
  instance_id = r.instance_id;
  execution_classes = r.execution_classes;
  revision = r.revision;
  last_heartbeat_at = r.last_heartbeat_at;
  status = r.status;
}

abbrev pub has_instance_id : String → WorkerRow → Bool
has_instance_id id r = r.instance_id == id

abbrev pub is_active : WorkerStatus → Bool
is_active WorkerStatus.active = true
is_active _ = false

abbrev pub is_dead_worker : WorkerStatus → Bool
is_dead_worker WorkerStatus.dead = true
is_dead_worker _ = false

-- `CASE WHEN status = 'draining' THEN 'draining' ELSE 'active' END`
abbrev pub revived : WorkerStatus → WorkerStatus
revived WorkerStatus.draining = WorkerStatus.draining
revived _ = WorkerStatus.active

abbrev pub active_row : ℕ → String → List String → String → WorkerRow
active_row now id classes revision = record {
  instance_id = id;
  execution_classes = classes;
  revision = revision;
  last_heartbeat_at = now;
  status = WorkerStatus.active;
}

-- `INSERT INTO worker_instances ... ON CONFLICT (instance_id) DO UPDATE`
unfoldable pub upsert_worker : WorkerRow → Db → Db
upsert_worker row db = record db {
  workers =
      if exists_where (has_instance_id row.instance_id) db.workers
      then update_where (has_instance_id row.instance_id) (λ _. row) db.workers
      else db.workers ++ row ∷ [];
}

abbrev map_worker : Option WorkerRow → Option WorkerInstance
map_worker none = none
map_worker (some r) = some (worker_from_row r)

-- `WorkerRegistry.get`
unfoldable pub get_worker : String → Tx (Option WorkerInstance)
get_worker id = query (λ db. map_worker (find_where (has_instance_id id) db.workers))

-- `WorkerRegistry.register`
unfoldable pub register : ℕ → String → List String → String → Tx WorkerInstance
unfolding upsert_worker get_worker
register now id classes revision = do
  (λ db. pure tt (upsert_worker (active_row now id classes revision) db))
  found ← get_worker id
  or_raise found assertion_error

abbrev pub beat_row : ℕ → Option String → WorkerRow → WorkerRow
beat_row now none r = record r { last_heartbeat_at = now; status = revived r.status }
beat_row now (some revision) r = record r {
  last_heartbeat_at = now;
  revision = revision;
  status = revived r.status;
}

-- `WorkerRegistry.heartbeat`
unfoldable pub heartbeat : ℕ → String → Option String → Tx Bool
heartbeat now id revision = do
  changed ← query (λ db. count_where (has_instance_id id) db.workers)
  (λ db. pure tt (record db {
    workers = update_where (has_instance_id id) (beat_row now revision) db.workers;
  }))
  pure (nat_eq changed 1)

-- the statuses that `mark_status` takes
abbrev pub parse_status : String → Option WorkerStatus
parse_status s =
    if s == "active"
    then some WorkerStatus.active
    else if s == "draining"
    then some WorkerStatus.draining
    else if s == "dead"
    then some WorkerStatus.dead
    else none

abbrev pub mark_row : WorkerStatus → WorkerRow → WorkerRow
mark_row status r = record r { status = status }

-- `WorkerRegistry.mark_status`
unfoldable pub mark_status : String → String → Tx (Unit {0})
mark_status id status = do
  parsed ← or_raise (parse_status status) (value_error "invalid worker status")
  changed ← query (λ db. count_where (has_instance_id id) db.workers)
  (λ db.
      pure tt
        (record db { workers = update_where (has_instance_id id) (mark_row parsed) db.workers }))
  raise_if (nat_eq changed 0) (lookup_error "unknown worker instance")

-- `status <> 'dead' AND last_heartbeat_at < now() - make_interval(secs => $1)`
abbrev pub is_stale : ℕ → ℕ → WorkerRow → Bool
is_stale now stale_after r =
    not (is_dead_worker r.status) && ltb (r.last_heartbeat_at + seconds stale_after) now

-- `WorkerRegistry.mark_stale_dead`
unfoldable pub mark_stale_dead : ℕ → ℕ → Tx ℕ
mark_stale_dead now stale_after = do
  changed ← query (λ db. count_where (is_stale now stale_after) db.workers)
  (λ db. pure tt (record db {
    workers = update_where (is_stale now stale_after) (mark_row WorkerStatus.dead) db.workers;
  }))
  pure changed

-- `WorkerRegistry.list_active`
unfoldable pub list_active : (String → String → Bool) → Tx (List WorkerInstance)
list_active collation = query (λ db. map worker_from_row (
    order_by (λ a b. collation a.instance_id b.instance_id)
      (select_where (λ r. is_active r.status) db.workers)))
