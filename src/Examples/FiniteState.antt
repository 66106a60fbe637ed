-- ===== src/Examples/FiniteState.antt =====
-- Runs of the finite state store.
use ptf.Prelude.{
  ◌≡◌, ◌↔◌, ◌⊎◌, refl, true, false, none, some, List, [], ◌∷◌, arith, ◌&&◌, All, is_none,
}
use ptf.Prelude.Table.{find_where, exists_where}
use ptf.Core.Enums.{ExecutionStatus, RunStatus}
use ptf.Core.Json.{JsonValue}
use ptf.Core.Errors.{ok, err}
use ptf.State.Db.{Db, UnitRow}
use ptf.State.Finite.Runs.{has_run_id, set_status}
use ptf.State.Finite.Plan.{has_key, load_unit, latest_plan}
use ptf.State.Finite.Claim.{claim_unit, claim_units, is_available, planned_timeout}
use ptf.State.Finite.Attempt.{complete_attempt, final_status}
use ptf.State.Finite.Finalize.{finalize_run_if_done, results, no_document, is_succeeded_unit}
use ptf.State.Finite.Exclusion.{IsKeyed, claim_unit-granted}
use ptf.State.Finite.Held.{IsHeldBy, claim_unit_excludes}
use ptf.State.Finite.Encoding.{refusal}
use ptf.State.Finite.Fencing.{complete_attempt-stale}
use ptf.State.Finite.Change.{UnitInv}
use ptf.State.Finite.Batch.{claim_units_rows}
use ptf.State.Finite.Ending.{
  verdict, finalize_run_if_done-verdict, cancelled_units_succeed, results-raises_iff,
}
use ptf.State.Finite.History.{Call, run_calls, claim_fences_older, run_calls-UnitInv, running_stays}
use ptf.Examples.Data.{
  by_key, digest, finite_db, claim_1, claim_0, waiting, held_row, one_unit, run_row, planned_a,
}

got_1 : (claim_unit 10 "w1" "r1" "a" 120 finite_db).0 ≡ ok (some claim_1)
unfolding claim_unit load_unit find_where planned_timeout latest_plan
got_1 = refl

succeeded_known : final_status "succeeded" ≡ some ExecutionStatus.succeeded
unfolding final_status
succeeded_known = refl

claim_fences_older_example :
    let later =
      run_calls digest by_key
        (claim_unit 10 "w1" "r1" "a" 120 finite_db).1
        (Call.finalize "r1" ∷ []) in
    complete_attempt claim_0 "x" "succeeded" JsonValue.null JsonValue.null none later
    ≡ (err (refusal JsonValue.null JsonValue.null), later)
claim_fences_older_example =
    claim_fences_older digest by_key 10 "w1" 120 finite_db claim_1 claim_0 (Call.finalize "r1" ∷ [])
      "x" "succeeded" JsonValue.null JsonValue.null none ExecutionStatus.succeeded
      (one_unit waiting) got_1 (omega arith) succeeded_known

-- the unit was claimed at 10; another worker tries it, a batch passes it, and an old handle is refused
abbrev tries : List Call
tries =
    Call.claim 999999999 "w2" "r1" "a" 120
    ∷ (Call.claim_batch 999999999 "w2" 10 120 none (λ u. false) ∷ Call.bury claim_0 ∷ [])

claim_unit_excludes_example :
    let held = run_calls digest by_key (claim_unit 10 "w1" "r1" "a" 120 finite_db).1 tries in
    IsHeldBy "w1" "r1" "a" claim_1 held
    × (claim_unit 1000000000 "w3" "r1" "a" 120 held ≡ (ok none, held))
claim_unit_excludes_example =
    claim_unit_excludes digest by_key 10 1000000000 "w1" "w3" "r1" "a" 120 120 finite_db
      (one_unit waiting) claim_1 tries got_1 (tt, (tt, (refl, tt)))

abbrev a_claim : List Call
a_claim = Call.claim 10 "w1" "r1" "a" 120 ∷ Call.finalize "r1" ∷ []

run_calls-UnitInv_example :
    IsKeyed (run_calls digest by_key finite_db a_claim).units
    × All UnitInv (run_calls digest by_key finite_db a_claim).units
run_calls-UnitInv_example =
    run_calls-UnitInv digest by_key finite_db a_claim (one_unit waiting) (ground arith, tt)

abbrev held_db : Db
held_db = record finite_db { units = held_row ∷ [] }

held_found : find_where (has_key "r1" "a") held_db.units ≡ some held_row
unfolding find_where
held_found = refl

abbrev written : UnitRow
written = record held_row {
  status = ExecutionStatus.succeeded;
  result = some (JsonValue.text "2");
  claimed_by = none;
  claim_expires_at = none;
}

complete_attempt-stale_example :
    complete_attempt claim_0 "x" "succeeded" (JsonValue.text "2") JsonValue.null none held_db
    ≡ (err (refusal (JsonValue.text "2") JsonValue.null), held_db)
complete_attempt-stale_example =
    complete_attempt-stale claim_0 held_db held_row (one_unit held_row) held_found "x" "succeeded"
      (JsonValue.text "2") JsonValue.null none ExecutionStatus.succeeded succeeded_known
      (λ same. omega (arith, same))

running_stays_example :
    find_where
      (has_key "r1" "a")
      (run_calls digest by_key held_db
        (Call.claim 999999999 "w2" "r1" "a" 120 ∷ Call.bury claim_0 ∷ [])).units
    ≡ some held_row
running_stays_example =
    running_stays digest by_key "r1" "a" held_row held_db
      (Call.claim 999999999 "w2" "r1" "a" 120 ∷ Call.bury claim_0 ∷ []) (one_unit held_row)
      held_found refl (tt, (refl, tt))

waiting_found : find_where (has_key "r1" "a") finite_db.units ≡ some waiting
unfolding find_where
waiting_found = refl

a_planned : latest_plan "r1" "a" finite_db.plan_units ≡ some planned_a
unfolding latest_plan
a_planned = refl

claim_unit-granted_example :
    ((claim_unit 10 "w1" "r1" "a" 120 finite_db).0 ≡ ok (some claim_1))
    × (find_where (has_key "r1" "a") (claim_unit 10 "w1" "r1" "a" 120 finite_db).1.units
        ≡ some held_row)
claim_unit-granted_example =
    claim_unit-granted 10 "w1" "r1" "a" 120 finite_db waiting (one_unit waiting) waiting_found
      planned_a a_planned refl

claim_units_rows_example :
    let after = (claim_units by_key 10 "w1" 1 120 (some "e1") (λ u. false) finite_db).1 in
    (find_where (has_key "r1" "a") after.units ≡ some waiting)
    ⊎ ((is_available finite_db 10 (some "e1") (λ u. false) waiting ≡ true)
        × (find_where (has_key "r1" "a") after.units ≡ some held_row))
unfolding planned_timeout latest_plan
claim_units_rows_example =
    claim_units_rows by_key finite_db 10 1 (some "e1") (λ u. false) "w1" 120 "r1" "a" waiting
      (one_unit waiting) waiting_found

run_found : find_where (has_run_id "r1") finite_db.runs ≡ some run_row
unfolding find_where
run_found = refl

finalize_run_if_done-verdict_example :
    let (answer, after) = finalize_run_if_done "r1" finite_db in
    (answer ≡ ok (verdict "r1" finite_db.units))
    × (find_where (has_run_id "r1") after.runs
        ≡ some (set_status (verdict "r1" finite_db.units) run_row))
    × (after.units ≡ finite_db.units)
finalize_run_if_done-verdict_example =
    finalize_run_if_done-verdict "r1" finite_db run_row run_found refl

abbrev cancelled_db : Db
cancelled_db = record finite_db {
  units = record waiting { status = ExecutionStatus.cancelled } ∷ [];
}

cancelled_units_succeed_example :
    (finalize_run_if_done "r1" cancelled_db).0 ≡ ok RunStatus.succeeded
cancelled_units_succeed_example =
    cancelled_units_succeed "r1" cancelled_db run_row run_found refl (λ _. refl, tt)

abbrev settled_db : Db
settled_db = record finite_db { runs = set_status RunStatus.cancelled run_row ∷ [] }

settled_found :
    find_where (has_run_id "r1") settled_db.runs ≡ some (set_status RunStatus.cancelled run_row)
unfolding find_where
settled_found = refl

abbrev silent_db : Db
silent_db = record finite_db { units = record waiting { status = ExecutionStatus.succeeded } ∷ [] }

results-raises_iff_example :
    ((results by_key "r1" silent_db).0 ≡ err no_document)
    ↔ (exists_where (λ u. is_succeeded_unit "r1" u && is_none u.result) silent_db.units ≡ true)
results-raises_iff_example = results-raises_iff by_key "r1" silent_db
