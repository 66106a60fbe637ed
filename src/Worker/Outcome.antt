-- ===== src/Worker/Outcome.antt =====
-- Where a failed attempt leaves its unit.
use ptf.Prelude.{
  ℕ, ◌≡◌, refl, ap, ◌∙◌, String, Bool, true, ◌==◌, none, some, arith, if◌then◌else◌, inl, inr,
  Bool-cases, nat_eq, nat_eq_iff,
}
use ptf.Prelude.Table.{find_where}
use ptf.Core.Enums.{ExecutionStatus}
use ptf.Core.Json.{JsonValue, is_finite}
use ptf.Core.Errors.{Result, ok}
use ptf.State.Db.{Db, UnitRow}
use ptf.State.Tx.{Tx, bind-ok, bind-pure_db, ◌>>=◌, pure}
use ptf.State.Finite.Plan.{has_key}
use ptf.State.Finite.Claim.{ClaimedUnit}
use ptf.State.Finite.Attempt.{final_status, complete_attempt, dead_letter_row, dead_letter}
use ptf.State.Finite.Finalize.{finalize_run_if_done, close_run}
use ptf.State.Finite.Exclusion.{IsKeyed}
use ptf.State.Finite.Encoding.{column_of, completed_row}
use ptf.State.Finite.Fencing.{complete_attempt-current, dead_letter-fenced}
use ptf.State.Finite.Change.{Change-IsKeyed}
use ptf.State.Finite.Effects.{complete_attempt-Changes}
use ptf.Worker.Retry.{AttemptOutcome}
use ptf.Worker.Settle.{final_outcome, retry_at, bury_and_finalize, record_failure}

pub finalize-units : (run : String) (db : Db) → (finalize_run_if_done run db).1.units ≡ db.units
unfolding finalize_run_if_done close_run
finalize-units run db = ground arith

pub pair : {A : Type 0} {r : Result A × Db} {a : A} → r.0 ≡ ok a → r ≡ (ok a, r.1)
pair {r = r} e = ap (λ x. (x, r.1)) e

finalize_after : String → Tx (Unit {0})
finalize_after run = finalize_run_if_done run >>= λ _. pure tt

finalize_after-units : (run : String) (db : Db) → (finalize_after run db).1.units ≡ db.units
unfolding finalize_after
finalize_after-units run db =
    ap (λ (d : Db). d.units) (bind-pure_db (finalize_run_if_done run) tt db) ∙ finalize-units run db

bury_and_finalize-unit :
    (c : ClaimedUnit) (final : String) (db : Db) (u : UnitRow)
    → IsKeyed db.units
    → find_where (has_key c.run_id c.unit_key) db.units ≡ some u
    → u.claim_token ≡ c.claim_token
    → find_where (has_key c.run_id c.unit_key) (bury_and_finalize c final db).1.units
      ≡ some (if final == "permanent" then dead_letter_row u else u)
unfolding bury_and_finalize finalize_after
bury_and_finalize-unit c final db u keyed found current =
    let (returns, _, stores) = dead_letter-fenced c db u keyed found in
    let holds : nat_eq u.claim_token c.claim_token ≡ true =
      ground (arith, current, nat_eq_iff u.claim_token c.claim_token) in
    let buried : dead_letter c db ≡ (ok tt, (dead_letter c db).1) =
      pair (returns ∙ rw holds refl) in
    elim (Bool-cases (final == "permanent")) [
      | inl permanent ↦ rw permanent (
          rw
            (
              bind-ok (dead_letter c) (λ _. finalize_after c.run_id) db tt (dead_letter c db).1
                  buried,
              finalize_after-units c.run_id (dead_letter c db).1,
            )
            (stores ∙ rw holds refl))
      | inr other ↦ rw other (rw (finalize_after-units c.run_id db) found)
    ]

-- the row of a unit after the failure `o` of the attempt `c` was recorded at `now`
abbrev pub failed_row : ℕ → ClaimedUnit → AttemptOutcome → ExecutionStatus → UnitRow → UnitRow
failed_row now c o status u =
    let row = completed_row status none (column_of o.error) (retry_at now c o) u in
    if final_outcome c o == "permanent"
    then (record row { status = ExecutionStatus.dead_lettered })
    else row

module _ (now : ℕ) (c : ClaimedUnit) (execution_id : String) (o : AttemptOutcome) (db : Db)
    (u : UnitRow) (status : ExecutionStatus) (keyed : IsKeyed db.units)
    (found : find_where (has_key c.run_id c.unit_key) db.units ≡ some u)
    (current : u.claim_token ≡ c.claim_token)
    (known : final_status (final_outcome c o) ≡ some status)
    (finite : is_finite o.error ≡ true) where
  abbrev run_key : UnitRow → Bool
  run_key = has_key c.run_id c.unit_key

  abbrev after_completion : Db
  after_completion =
      (complete_attempt c execution_id (final_outcome c o) JsonValue.null o.error (retry_at now c o)
        db).1

  row : UnitRow
  row = completed_row status none (column_of o.error) (retry_at now c o) u

  completes :
      (complete_attempt c execution_id
          (final_outcome c o)
          JsonValue.null
          o.error
          (retry_at now c o)
          db
        ≡ (ok tt, after_completion))
      × (find_where run_key after_completion.units ≡ some row)
  unfolding row is_finite
  completes =
      let (returns, stores, _) =
        complete_attempt-current c db u keyed found execution_id (final_outcome c o) JsonValue.null
          o.error (retry_at now c o) status known current finite refl in
      (pair returns, stores)

  IsKeyed-after : IsKeyed after_completion.units
  IsKeyed-after =
      Change-IsKeyed
        (complete_attempt-Changes (λ x. Unit {0}) c execution_id (final_outcome c o) JsonValue.null
          o.error (retry_at now c o) tt db)
        keyed

  -- A failure whose error can be encoded, recorded under the unit's token, leaves the unit dead-lettered if the outcome was
  -- permanent or no attempt was left for a retry, and otherwise as the outcome says, free of its
  -- claim and due again at the time of the retry.
  pub record_failure-unit :
      find_where run_key (record_failure now c execution_id o db).1.units
      ≡ some (failed_row now c o status u)
  unfolding record_failure row
  record_failure-unit =
      rw
        (bind-ok
          (complete_attempt c execution_id (final_outcome c o) JsonValue.null o.error
            (retry_at now c o))
          (λ _. bury_and_finalize c (final_outcome c o)) db tt after_completion completes.0)
        (bury_and_finalize-unit c (final_outcome c o) after_completion row IsKeyed-after completes.1
          current)
