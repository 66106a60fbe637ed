-- ===== src/State/Finite/Plan.antt =====
-- Plans: `record_plan`, `load_plan`, `_load_unit` of state/finite.py, with the constraints of
-- migrations/0001 and 0002 on the inserts.
use ptf.Prelude.{
  ℕ, suc, String, Bool, ◌==◌, ◌&&◌, ◌||◌, Option, none, some, List, [], ◌∷◌, ◌++◌, map, ltb, leb,
  nat_eq, if◌then◌else◌,
}
use ptf.Prelude.Table.{update_where, count_where, exists_where, select_where, order_by}
use ptf.Core.Enums.{RunStatus, ExecutionStatus, is_plannable}
use ptf.Core.Json.{JsonFields}
use ptf.Core.Errors.{
  lookup_error, invariant_violation, unique_violation, foreign_key_violation, Error,
}
use ptf.Finite.Unit.{ExecutionUnit, PlanningRecord}
use ptf.State.Db.{Db, RunRow, PlanRow, UnitRow}
use ptf.State.Tx.{Tx, pure, raise, query, transaction, or_raise, raise_if, ◌>>=◌, ◌>>◌}
use ptf.State.Finite.Runs.{has_run_id}

-- `run_id = $1 AND unit_key = $2` of a unit
abbrev pub has_key : String → String → UnitRow → Bool
has_key run key u = u.run_id == run && u.unit_key == key

-- the same of a plan row
abbrev pub plans_key : String → String → PlanRow → Bool
plans_key run key p = p.run_id == run && p.unit_key == key

abbrev pub in_generation : String → ℕ → PlanRow → Bool
in_generation run gen p = p.run_id == run && nat_eq p.planning_generation gen

-- The two rows break the PRIMARY KEY or the UNIQUE constraint of `finite_plan_units`.
abbrev pub clashes : PlanRow → PlanRow → Bool
clashes a b =
    in_generation a.run_id a.planning_generation b
    && (nat_eq b.ordinal a.ordinal || b.unit_key == a.unit_key)

-- `INSERT INTO finite_plan_units`
unfoldable pub insert_plan_row : PlanRow → Tx (Unit {0})
insert_plan_row row db =
    if exists_where (clashes row) db.plan_units
    then (raise unique_violation db)
    else if exists_where (has_run_id row.run_id) db.runs
    then pure tt (record db { plan_units = db.plan_units ++ row ∷ [] })
    else raise foreign_key_violation db

-- The row of a unit that waits for its first claim.
abbrev pub ready_unit : String → String → UnitRow
ready_unit run key = record {
  run_id = run;
  unit_key = key;
  status = ExecutionStatus.ready;
  attempt_count = 0;
  next_attempt_at = none;
  claimed_by = none;
  claim_expires_at = none;
  claim_token = 0;
  result = none;
  last_error = none;
}

-- `INSERT INTO finite_units ... ON CONFLICT (run_id, unit_key) DO NOTHING`
unfoldable pub insert_ready : String → String → Tx (Unit {0})
insert_ready run key db =
    if exists_where (has_key run key) db.units
    then pure tt db
    else if exists_where (has_run_id run) db.runs
    then pure tt (record db { units = db.units ++ ready_unit run key ∷ [] })
    else raise foreign_key_violation db

abbrev pub plan_row : (JsonFields → String) → String → ℕ → ℕ → ExecutionUnit → PlanRow
plan_row digest run gen n u = record {
  run_id = run;
  planning_generation = gen;
  ordinal = n;
  unit_key = u.unit_key;
  payload_hash = digest u.payload;
  unit = u;
}

-- the first `executemany`, from ordinal `n`
unfoldable pub insert_plan_rows :
    (JsonFields → String) → String → ℕ → ℕ → List ExecutionUnit → Tx (Unit {0})
unfolding insert_plan_row
insert_plan_rows digest run gen n [] = pure tt
insert_plan_rows digest run gen n (u ∷ us) = do
  insert_plan_row (plan_row digest run gen n u)
  insert_plan_rows digest run gen (suc n) us

-- the second `executemany`
unfoldable pub insert_ready_units : String → List ExecutionUnit → Tx (Unit {0})
unfolding insert_ready
insert_ready_units run [] = pure tt
insert_ready_units run (u ∷ us) = do insert_ready run u.unit_key; insert_ready_units run us

-- `run_id = $1 AND status IN ('pending', 'planning')`
abbrev pub plannable : String → RunRow → Bool
plannable run r = has_run_id run r && is_plannable r.status

abbrev pub start_running : ℕ → RunRow → RunRow
start_running gen r = record r { status = RunStatus.running; planning_generation = gen }

abbrev pub not_plannable : Error
not_plannable = invariant_violation "run not plannable in current state"

-- `UPDATE finite_runs SET status = 'running', ...`, with its row count
unfoldable pub start_run : String → ℕ → Tx ℕ
start_run run gen = do
  changed ← query (λ db. count_where (plannable run) db.runs)
  (λ db. pure tt (record db { runs = update_where (plannable run) (start_running gen) db.runs }))
  pure changed

-- the body of the transaction in `record_plan`
unfoldable pub write_plan : (JsonFields → String) → String → ℕ → List ExecutionUnit → Tx ℕ
unfolding insert_plan_rows insert_ready_units start_run
write_plan digest run gen units =
    insert_plan_rows digest run gen 0 units >> (insert_ready_units run units >> start_run run gen)

-- `record_plan`. The test of `changed` stands behind the transaction, which is committed by then.
unfoldable pub record_plan : (JsonFields → String) → String → ℕ → List ExecutionUnit → Tx (Unit {0})
unfolding write_plan
record_plan digest run gen units = do
  changed ← transaction (write_plan digest run gen units)
  raise_if (nat_eq changed 0) not_plannable

abbrev pub stored_record : PlanRow → PlanningRecord
stored_record p = record {
  ordinal = p.ordinal;
  unit_key = p.unit_key;
  payload_sha256 = p.payload_hash;
}

unfoldable pub plan_records : String → ℕ → Db → List PlanningRecord
plan_records run gen db =
    map stored_record (
      order_by (λ a b. leb a.ordinal b.ordinal)
        (select_where (in_generation run gen) db.plan_units))

unfoldable pub load_plan : String → ℕ → Tx (List PlanningRecord)
unfolding plan_records
load_plan run gen = query (plan_records run gen)

abbrev later_plan : PlanRow → Option PlanRow → Option PlanRow
later_plan p none = some p
later_plan p (some q) = if ltb p.planning_generation q.planning_generation then some q else some p

-- the plan row of the unit with the greatest `planning_generation`
unfoldable pub latest_plan : String → String → List PlanRow → Option PlanRow
latest_plan run key [] = none
latest_plan run key (p ∷ ps) =
    let rest = latest_plan run key ps in if plans_key run key p then later_plan p rest else rest

-- `_load_unit`
unfoldable pub load_unit : String → String → Tx ExecutionUnit
load_unit run key = do
  found ← query (λ db. latest_plan run key db.plan_units)
  p ← or_raise found (lookup_error "unit not in plan")
  pure p.unit
