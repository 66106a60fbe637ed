-- ===== src/State/Finite/Runs.antt =====
-- Runs: `submit_run`, `get_run`, `list_pending_runs`, `transition_run` of state/finite.py.
use ptf.Prelude.{
  ℕ, String, Bool, ◌==◌, ◌&&◌, ◌||◌, Option, none, some, List, [], ◌∷◌, ◌++◌, map, take, ltb,
  nat_eq, not, if◌then◌else◌,
}
use ptf.Prelude.Table.{find_where, update_where, count_where, exists_where, select_where, order_by}
use ptf.Core.Enums.{RunStatus, is_plannable}
use ptf.Core.Json.{JsonFields, finite_fields}
use ptf.Core.Errors.{Error, lookup_error, assertion_error, value_error}
use ptf.Finite.Unit.{WorkloadRequest}
use ptf.State.Db.{Db, RunRow}
use ptf.State.Tx.{Tx, pure, query, transaction, or_raise, raise_if, ◌>>=◌, ◌>>◌}

-- `class StoredRun`
pub record StoredRun : Type 0 where
  pub run_id : String
  pub workload_id : String
  pub workload_name : String
  pub workload_version : String
  pub planner_revision : String
  pub execution_revision : String
  pub status : RunStatus
  pub input : JsonFields
  pub planning_generation : ℕ

-- `_run_from_row`
abbrev pub run_from_row : RunRow → StoredRun
run_from_row r = record {
  run_id = r.run_id;
  workload_id = r.workload_id;
  workload_name = r.workload_name;
  workload_version = r.workload_version;
  planner_revision = r.planner_revision;
  execution_revision = r.execution_revision;
  status = r.status;
  input = r.input;
  planning_generation = r.planning_generation;
}

-- the `WorkloadRequest` of a run
abbrev pub request_of : StoredRun → WorkloadRequest
request_of run = record {
  run_id = run.run_id;
  workload_id = run.workload_id;
  planner_revision = run.planner_revision;
  execution_revision = run.execution_revision;
  payload = run.input;
}

-- `run_id = $1`
abbrev pub has_run_id : String → RunRow → Bool
has_run_id id r = r.run_id == id

-- `INSERT INTO finite_runs ... ON CONFLICT (run_id) DO NOTHING`
unfoldable pub insert_run : RunRow → Db → Db
insert_run row db = record db {
  runs = if exists_where (has_run_id row.run_id) db.runs then db.runs else db.runs ++ row ∷ [];
}

-- The row that a submission writes at `now`.
abbrev pub pending_run :
    ℕ → String → String → String → String → String → String → JsonFields → RunRow
pending_run now run_id workload_id name version planner_revision execution_revision input = record {
  run_id = run_id;
  workload_id = workload_id;
  workload_name = name;
  workload_version = version;
  planner_revision = planner_revision;
  execution_revision = execution_revision;
  status = RunStatus.pending;
  input = input;
  planning_generation = 1;
  created_at = now;
}

-- the `ValueError` of `json.dumps(..., allow_nan=False)`, in `_canonical_json`
abbrev pub not_json : Error
not_json = value_error "Out of range float values are not JSON compliant"

-- `submit_run`, given the row of its arguments
unfoldable pub submit_run : RunRow → Tx StoredRun
unfolding insert_run finite_fields
submit_run row = transaction (do
  raise_if (not (finite_fields row.input)) not_json
  (λ db. pure tt (insert_run row db))
  found ← query (λ db. find_where (has_run_id row.run_id) db.runs)
  r ← or_raise found assertion_error
  pure (run_from_row r))

abbrev pub map_run : Option RunRow → Option StoredRun
map_run none = none
map_run (some r) = some (run_from_row r)

unfoldable pub get_run : String → Tx (Option StoredRun)
get_run id = query (λ db. map_run (find_where (has_run_id id) db.runs))

-- `ORDER BY created_at, run_id`, under the database's collation of texts
abbrev pub submitted_before : (String → String → Bool) → RunRow → RunRow → Bool
submitted_before collation a b =
    ltb a.created_at b.created_at
    || (nat_eq a.created_at b.created_at && collation a.run_id b.run_id)

unfoldable pub list_pending_runs : (String → String → Bool) → ℕ → Tx (List StoredRun)
list_pending_runs collation limit = query (λ db. map run_from_row (
    take limit
      (order_by (submitted_before collation) (select_where (λ r. is_plannable r.status) db.runs))))

abbrev pub set_status : RunStatus → RunRow → RunRow
set_status status r = record r { status = status }

unfoldable pub transition_run : String → RunStatus → Tx (Unit {0})
transition_run id status = do
  changed ← query (λ db. count_where (has_run_id id) db.runs)
  (λ db. pure tt (record db { runs = update_where (has_run_id id) (set_status status) db.runs }))
  raise_if (nat_eq changed 0) (lookup_error "unknown run")
