-- ===== src/State/Finite/Ending.antt =====
-- The life of a run's row: submission, transitions, and how the statuses of its units decide it.
use ptf.Prelude.{
  ◌≡◌, ◌↔◌, refl, ◌∙◌, String, Bool, true, false, ◌&&◌, some, List, [], ◌∷◌, ◌++◌, arith, ltb,
  if◌then◌else◌, is_none, Bool-cases, inl, inr, eq_refl, subst, All,
}
use ptf.Prelude.Table.{
  find_where, update_where, count_where, exists_where, select_where, order_by, find-update,
  find_satisfies, count-pos_of_find, exists_of_find, find-append_none, exists-order_by,
  exists-select,
}
use ptf.Core.Enums.{RunStatus, ExecutionStatus, is_run_running}
use ptf.Core.Json.{finite_fields}
use ptf.Core.Errors.{ok, err}
use ptf.State.Db.{Db, RunRow, UnitRow}
use ptf.State.Finite.Runs.{
  has_run_id, run_from_row, insert_run, submit_run, set_status, transition_run,
}
use ptf.State.Finite.Finalize.{
  of_run, is_open_unit, is_dead_unit, is_active_run, close_run, finalize_run_if_done, key_before,
  is_succeeded_unit, no_document, read_results, results, final_run_status, status_or_pending,
}

-- A second submission under a run's identifier, with an input of finite floats, returns the run that is stored, whatever the
-- arguments, and writes nothing.
pub submit_run_again :
    (row : RunRow) (db : Db) (r : RunRow)
    → finite_fields row.input ≡ true
    → find_where (has_run_id row.run_id) db.runs ≡ some r
    → submit_run row db ≡ (ok (run_from_row r), db)
unfolding submit_run insert_run
submit_run_again row db r finite found =
    ground (arith, finite, exists_of_find (has_run_id row.run_id) db.runs r found)

-- A first submission, with an input of finite floats, stores the run and returns it.
pub submit_run_first :
    (row : RunRow) (db : Db)
    → finite_fields row.input ≡ true
    → exists_where (has_run_id row.run_id) db.runs ≡ false
    → submit_run row db ≡ (ok (run_from_row row), record db { runs = db.runs ++ row ∷ [] })
unfolding submit_run insert_run
submit_run_first row db finite fresh =
    ground (
      arith,
      finite,
      find-append_none (has_run_id row.run_id) db.runs row fresh (eq_refl row.run_id),
    )

-- `transition_run` has no guard: whatever the status of a known run, it takes the status asked for.
pub transition_run_any :
    (id : String) (status : RunStatus) (db : Db) (r : RunRow)
    → find_where (has_run_id id) db.runs ≡ some r
    → ((transition_run id status db).0 ≡ ok tt)
      × (find_where (has_run_id id) (transition_run id status db).1.runs
          ≡ some (set_status status r))
unfolding transition_run
transition_run_any id status db r found = ground (
  arith,
  count-pos_of_find (has_run_id id) db.runs r found,
  find-update (has_run_id id) (has_run_id id) (set_status status) db.runs (λ x. refl),
  find_satisfies (has_run_id id) db.runs r found,
)

-- What a run comes to, by its units: it goes on while one is open, fails if one was dead-lettered,
-- and has succeeded otherwise.
abbrev pub verdict : String → List UnitRow → RunStatus
verdict run units =
    if ltb 0 (count_where (is_open_unit run) units)
    then RunStatus.running
    else if ltb 0 (count_where (is_dead_unit run) units)
    then RunStatus.failed
    else RunStatus.succeeded

-- `close_run` stores the verdict of a run with no open unit on it if it is running, and returns what
-- is stored.
close_run-stores :
    (run : String) (db : Db) (r : RunRow)
    → find_where (has_run_id run) db.runs ≡ some r
    → let final = final_run_status (count_where (is_dead_unit run) db.units) in
      let row = if is_run_running r.status then set_status final r else r in
      let rows = update_where (is_active_run run) (set_status final) db.runs in
      (find_where (has_run_id run) rows ≡ some row)
      × (close_run run db ≡ (ok row.status, record db { runs = rows }))
unfolding close_run
close_run-stores run db r found = (stored, rw stored refl)
  where
    final : RunStatus
    final = final_run_status (count_where (is_dead_unit run) db.units)

    stored :
        find_where (has_run_id run) (update_where (is_active_run run) (set_status final) db.runs)
        ≡ some (if is_run_running r.status then set_status final r else r)
    stored = ground (
      arith,
      find-update (is_active_run run) (has_run_id run) (set_status final) db.runs (λ x. refl),
      find_satisfies (has_run_id run) db.runs r found,
    )

finalize-open :
    (run : String) (db : Db)
    → ltb 0 (count_where (is_open_unit run) db.units) ≡ true
    → finalize_run_if_done run db
      ≡ (ok (status_or_pending (find_where (has_run_id run) db.runs)), db)
unfolding finalize_run_if_done
finalize-open run db some_open = ground arith

finalize-done :
    (run : String) (db : Db) (status : RunStatus) (after : Db)
    → ltb 0 (count_where (is_open_unit run) db.units) ≡ false
    → close_run run db ≡ (ok status, after)
    → finalize_run_if_done run db ≡ (ok status, after)
unfolding finalize_run_if_done
finalize-done run db status after done closed = ground arith

-- Finalising a running run returns the verdict on its units and stores it, and leaves the units
-- alone.
pub finalize_run_if_done-verdict :
    (run : String) (db : Db) (r : RunRow)
    → find_where (has_run_id run) db.runs ≡ some r
    → r.status ≡ RunStatus.running
    → let (answer, after) = finalize_run_if_done run db in
      (answer ≡ ok (verdict run db.units))
      × (find_where (has_run_id run) after.runs ≡ some (set_status (verdict run db.units) r))
      × (after.units ≡ db.units)
finalize_run_if_done-verdict run db r found runs =
    elim (Bool-cases (ltb 0 (count_where (is_open_unit run) db.units))) [
      | inl some_open ↦ rw (finalize-open run db some_open) ground (arith, some_open)
      | inr done ↦
          let closed = close_run-stores run db r found in
          rw (finalize-done run db _ _ done closed.1) ground (arith, closed.0)
    ]

-- A run that is not running is never changed by finalisation; its status is returned.
pub finalize_run_if_done-settled :
    (run : String) (db : Db) (r : RunRow)
    → find_where (has_run_id run) db.runs ≡ some r
    → is_run_running r.status ≡ false
    → let (answer, after) = finalize_run_if_done run db in
      (answer ≡ ok r.status) × (find_where (has_run_id run) after.runs ≡ some r)
finalize_run_if_done-settled run db r found settled =
    elim (Bool-cases (ltb 0 (count_where (is_open_unit run) db.units))) [
      | inl some_open ↦ rw (finalize-open run db some_open) ground (arith, some_open)
      | inr done ↦
          let closed = close_run-stores run db r found in
          rw (finalize-done run db _ _ done closed.1) ground (arith, closed.0)
    ]

no_open :
    (run : String) (units : List UnitRow)
    → All (λ u. of_run run u ≡ true → u.status ≡ ExecutionStatus.cancelled) units
    → (count_where (is_open_unit run) units ≡ 0) × (count_where (is_dead_unit run) units ≡ 0)
unfolding count_where
no_open run [] all = (refl, refl)
no_open run (u ∷ us) all = elim (Bool-cases (of_run run u)) [
  | inl its ↦ rw (its, all.0 its) (no_open run us all.1)
  | inr other ↦ rw other (no_open run us all.1)
]

-- A run all of whose units were cancelled is reported as succeeded.
pub cancelled_units_succeed :
    (run : String) (db : Db) (r : RunRow)
    → find_where (has_run_id run) db.runs ≡ some r
    → r.status ≡ RunStatus.running
    → All (λ u. of_run run u ≡ true → u.status ≡ ExecutionStatus.cancelled) db.units
    → (finalize_run_if_done run db).0 ≡ ok RunStatus.succeeded
cancelled_units_succeed run db r found runs all =
    (finalize_run_if_done-verdict run db r found runs).0 ∙ ground (arith, no_open run db.units all)

read_results-raises :
    (us : List UnitRow)
    → (read_results us ≡ err no_document) ↔ (exists_where (λ u. is_none u.result) us ≡ true)
unfolding read_results exists_where
read_results-raises [] = ground arith
read_results-raises (u ∷ us) = ground (arith, read_results-raises us)

-- The results of a run cannot be read exactly when a unit succeeded with a NULL result.
pub results-raises_iff :
    (collation : String → String → Bool) (run : String) (db : Db)
    → ((results collation run db).0 ≡ err no_document)
      ↔ (exists_where (λ u. is_succeeded_unit run u && is_none u.result) db.units ≡ true)
unfolding results
results-raises_iff collation run db =
    subst (λ b. ((results collation run db).0 ≡ err no_document) ↔ (b ≡ true))
      (exists-order_by (key_before collation) (λ u. is_none u.result)
          (select_where (is_succeeded_unit run) db.units)
        ∙ exists-select (is_succeeded_unit run) (λ u. is_none u.result) db.units)
      (read_results-raises
        (order_by (key_before collation) (select_where (is_succeeded_unit run) db.units)))
