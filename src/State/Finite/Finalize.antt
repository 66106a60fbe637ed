-- ===== src/State/Finite/Finalize.antt =====
-- The end of a run: `finalize_run_if_done`, and the readers `unit_states` and `results`, of
-- state/finite.py.
use ptf.Prelude.{
  ℕ, String, Bool, ◌==◌, ◌&&◌, Option, none, some, List, [], ◌∷◌, map, ltb, if◌then◌else◌,
}
use ptf.Prelude.Table.{find_where, update_where, count_where, select_where, order_by}
use ptf.Core.Enums.{RunStatus, ExecutionStatus, is_open, is_dead, is_succeeded, is_run_running}
use ptf.Core.Json.{JsonValue}
use ptf.Core.Errors.{Result, ok, err, Error, assertion_error, value_error}
use ptf.State.Db.{RunRow, UnitRow}
use ptf.State.Tx.{Tx, pure, query, transaction, or_raise, ◌>>=◌, ◌>>◌}
use ptf.State.Finite.Runs.{has_run_id, set_status}

abbrev pub of_run : String → UnitRow → Bool
of_run run u = u.run_id == run

-- `count(*) FILTER (WHERE status NOT IN (...)) AS open`
abbrev pub is_open_unit : String → UnitRow → Bool
is_open_unit run u = of_run run u && is_open u.status

-- `count(*) FILTER (WHERE status = 'dead_lettered') AS dead`
abbrev pub is_dead_unit : String → UnitRow → Bool
is_dead_unit run u = of_run run u && is_dead u.status

abbrev pub status_or_pending : Option RunRow → RunStatus
status_or_pending none = RunStatus.pending
status_or_pending (some r) = r.status

-- `run_id = $1 AND status = 'running'`
abbrev pub is_active_run : String → RunRow → Bool
is_active_run run r = has_run_id run r && is_run_running r.status

abbrev pub final_run_status : ℕ → RunStatus
final_run_status dead = if ltb 0 dead then RunStatus.failed else RunStatus.succeeded

-- what follows once no unit is open
unfoldable pub close_run : String → Tx RunStatus
close_run run = do
  dead ← query (λ db. count_where (is_dead_unit run) db.units)
  (λ db. pure tt (record db {
    runs = update_where (is_active_run run) (set_status (final_run_status dead)) db.runs;
  }))
  found ← query (λ db. find_where (has_run_id run) db.runs)
  r ← or_raise found assertion_error
  pure r.status

unfoldable pub finalize_run_if_done : String → Tx RunStatus
unfolding close_run
finalize_run_if_done run = transaction (do
  open_units ← query (λ db. count_where (is_open_unit run) db.units)
  if ltb 0 open_units
      then query (λ db. status_or_pending (find_where (has_run_id run) db.runs))
      else close_run run)

-- `ORDER BY unit_key`
abbrev pub key_before : (String → String → Bool) → UnitRow → UnitRow → Bool
key_before collation a b = collation a.unit_key b.unit_key

-- `class UnitState`
pub record UnitState : Type 0 where
  pub run_id : String
  pub unit_key : String
  pub status : ExecutionStatus
  pub attempt_count : ℕ
  pub claim_token : ℕ
  pub claimed_by : Option String
  pub result : JsonValue
  pub last_error : JsonValue

abbrev or_null : Option JsonValue → JsonValue
or_null none = JsonValue.null
or_null (some v) = v

-- `_unit_state_from_row`
abbrev pub unit_state_from_row : UnitRow → UnitState
unit_state_from_row r = record {
  run_id = r.run_id;
  unit_key = r.unit_key;
  status = r.status;
  attempt_count = r.attempt_count;
  claim_token = r.claim_token;
  claimed_by = r.claimed_by;
  result = or_null r.result;
  last_error = or_null r.last_error;
}

unfoldable pub unit_states : (String → String → Bool) → String → Tx (List UnitState)
unit_states collation run = query (λ db.
    map unit_state_from_row (order_by (key_before collation) (select_where (of_run run) db.units)))

abbrev pub is_succeeded_unit : String → UnitRow → Bool
is_succeeded_unit run u = of_run run u && is_succeeded u.status

-- `json.loads(str(row["result"]))` of each row; `str(None)` is no JSON, so a NULL result raises.
abbrev pub no_document : Error
no_document = value_error "not a JSON document"

abbrev read_value : Option JsonValue → Result (List JsonValue) → Result (List JsonValue)
read_value none rest = err no_document
read_value (some v) (ok vs) = ok (v ∷ vs)
read_value (some v) (err e) = err e

unfoldable pub read_results : List UnitRow → Result (List JsonValue)
read_results [] = ok []
read_results (u ∷ us) = read_value u.result (read_results us)

unfoldable pub results : (String → String → Bool) → String → Tx (List JsonValue)
unfolding read_results
results collation run db = (
  read_results (order_by (key_before collation) (select_where (is_succeeded_unit run) db.units)),
  db,
)
