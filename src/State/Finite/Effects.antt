-- ===== src/State/Finite/Effects.antt =====
-- What each operation of state/finite.py changes in the table of units.
use ptf.Prelude.{
  ℕ, suc, nat_eq, ◌≡◌, String, true, Option, some, List, [], ◌∷◌, arith, All-intro, Option-cases,
  Bool-cases, inl, inr,
}
use ptf.Prelude.Table.{exists_where}
use ptf.Core.Enums.{RunStatus, ExecutionStatus, is_claimable}
use ptf.Core.Json.{JsonValue, JsonFields}
use ptf.Core.Errors.{Result, ok, err}
use ptf.Finite.Unit.{ExecutionUnit}
use ptf.State.Db.{Db, RunRow, UnitRow, PlanRow, AttemptRow}
use ptf.State.Tx.{Tx, ◌>>=◌, transaction, lift, ◌>>◌, raise_if}
use ptf.State.Steps.{Steps, Steps-bind, Steps-then, Steps-transaction}
use ptf.State.Finite.Runs.{has_run_id, submit_run, transition_run}
use ptf.State.Finite.Plan.{
  has_key, insert_plan_row, insert_plan_rows, insert_ready, insert_ready_units, record_plan,
  write_plan, start_run, plan_row, not_plannable,
}
use ptf.State.Finite.Claim.{ClaimedUnit, is_target, claim_unit}
use ptf.State.Finite.Attempt.{
  final_status, complete_row, attempt_row, insert_attempt, fenced_update, nullable, record_attempt,
  complete_attempt, dead_letter, stale_claim,
}
use ptf.State.Finite.Finalize.{finalize_run_if_done}
use ptf.State.Finite.Exclusion.{claim_unit-db}
use ptf.State.Finite.Change.{Change}

abbrev pub Changes : (ClaimedUnit → Type 0) → Db → Db → Type 0
Changes H a b = Change H a.units b.units

module _ (H : ClaimedUnit → Type 0) where
  same_units : (db : Db) → Changes H db db
  same_units db = Change.same db.units

  join_units : (a b c : Db) → Changes H a b → Changes H b c → Changes H a c
  join_units a b c h k = Change.next h k

  unchanged : (xs ys : List UnitRow) → ys ≡ xs → Change H xs ys
  unchanged xs ys e = rw e (Change.same xs)

  pub submit_run-Changes : (row : RunRow) → Steps (Changes H) (submit_run row)
  unfolding submit_run
  submit_run-Changes row db = unchanged db.units _ (ground arith)

  pub transition_run-Changes :
      (id : String) (s : RunStatus) → Steps (Changes H) (transition_run id s)
  unfolding transition_run
  transition_run-Changes id s db = same_units db

  insert_ready-Changes : (run key : String) → Steps (Changes H) (insert_ready run key)
  unfolding insert_ready
  insert_ready-Changes run key db = elim (Bool-cases (exists_where (has_key run key) db.units)) [
    | inl old ↦ unchanged db.units _ (ground arith)
    | inr new ↦ elim (Bool-cases (exists_where (has_run_id run) db.runs)) [
      | inl parent ↦ rw new (rw parent (Change.add run key db.units new))
      | inr orphan ↦ unchanged db.units _ (ground arith)
    ]
  ]

  insert_ready_units-Changes :
      (run : String) (us : List ExecutionUnit) → Steps (Changes H) (insert_ready_units run us)
  unfolding insert_ready_units
  insert_ready_units-Changes run [] db = same_units db
  insert_ready_units-Changes run (u ∷ us) db =
      Steps-then (Changes H) same_units join_units (insert_ready run u.unit_key)
        (insert_ready_units run us) (insert_ready-Changes run u.unit_key)
        (insert_ready_units-Changes run us) db

  insert_plan_row-Changes : (row : PlanRow) → Steps (Changes H) (insert_plan_row row)
  unfolding insert_plan_row
  insert_plan_row-Changes row db = unchanged db.units _ (ground arith)

  insert_plan_rows-Changes :
      (digest : JsonFields → String) (run : String) (gen n : ℕ) (us : List ExecutionUnit)
      → Steps (Changes H) (insert_plan_rows digest run gen n us)
  unfolding insert_plan_rows
  insert_plan_rows-Changes digest run gen n [] db = same_units db
  insert_plan_rows-Changes digest run gen n (u ∷ us) db =
      Steps-then (Changes H) same_units join_units (insert_plan_row (plan_row digest run gen n u))
        (insert_plan_rows digest run gen (suc n) us)
        (insert_plan_row-Changes (plan_row digest run gen n u))
        (insert_plan_rows-Changes digest run gen (suc n) us) db

  pub record_plan-Changes :
      (digest : JsonFields → String) (run : String) (gen : ℕ) (us : List ExecutionUnit)
      → Steps (Changes H) (record_plan digest run gen us)
  unfolding record_plan write_plan start_run
  record_plan-Changes digest run gen us =
      Steps-bind (Changes H) same_units join_units (transaction (write_plan digest run gen us))
        (λ changed. raise_if (nat_eq changed 0) not_plannable)
        (Steps-transaction (Changes H) same_units join_units (write_plan digest run gen us) (
          Steps-then (Changes H) same_units join_units (insert_plan_rows digest run gen 0 us)
            (insert_ready_units run us >> start_run run gen)
            (insert_plan_rows-Changes digest run gen 0 us)
            (Steps-then (Changes H) same_units join_units (insert_ready_units run us)
              (start_run run gen) (insert_ready_units-Changes run us) same_units)))
        (λ changed. same_units)

  pub claim_unit-Changes :
      (now : ℕ) (owner run key : String) (grace : ℕ)
      → Steps (Changes H) (claim_unit now owner run key grace)
  claim_unit-Changes now owner run key grace db = rw (claim_unit-db now owner run key grace db) (
      Change.claim (is_target db.plan_units now run key) db.plan_units now owner grace db.units (
        All-intro
          (λ (u : UnitRow).
            is_target db.plan_units now run key u ≡ true → is_claimable u.status ≡ true)
          (λ u h. ground arith) db.units))

  insert_attempt-Changes : (row : AttemptRow) → Steps (Changes H) (insert_attempt row)
  unfolding insert_attempt
  insert_attempt-Changes row db = unchanged db.units _ (ground arith)

  lift_then :
      (r : Result (Option JsonValue)) (f : Option JsonValue → Tx (Unit {0}))
      → ((v : Option JsonValue) → Steps (Changes H) (f v))
      → Steps (Changes H) (lift r >>= f)
  lift_then (ok v) f steps = steps v
  lift_then (err e) f steps = same_units

  record_attempt-Changes :
      (c : ClaimedUnit) (execution_id outcome : String) (status : ExecutionStatus)
      (result error : JsonValue) (retry_at : Option ℕ)
      → H c
      → final_status outcome ≡ some status
      → Steps (Changes H) (record_attempt c execution_id outcome status result error retry_at)
  unfolding record_attempt fenced_update
  record_attempt-Changes c execution_id outcome status result error retry_at held known =
      let write = λ (stored last : Option JsonValue).
        fenced_update c (complete_row status stored last retry_at) stale_claim in
      let update = λ (stored : Option JsonValue). lift (nullable error) >>= write stored in
      let encode = lift (nullable result) >>= update in
      let insert =
        λ (v : Option JsonValue). insert_attempt (attempt_row c execution_id outcome v) in
      lift_then (nullable error) (λ v. insert v >> encode)
        (λ v.
          Steps-then (Changes H) same_units join_units (insert v) encode
            (insert_attempt-Changes (attempt_row c execution_id outcome v))
            (lift_then (nullable result) update (λ stored.
              lift_then (nullable error) (write stored) (λ last d.
                Change.complete c outcome status stored last retry_at d.units held known))))

  pub complete_attempt-Changes :
      (c : ClaimedUnit) (execution_id outcome : String) (result error : JsonValue)
      (retry_at : Option ℕ)
      → H c
      → Steps (Changes H) (complete_attempt c execution_id outcome result error retry_at)
  unfolding complete_attempt
  complete_attempt-Changes c execution_id outcome result error retry_at held db =
      elim (Option-cases (final_status outcome)) [
        | inl unknown ↦ unchanged db.units _ (ground arith)
        | inr (status, known) ↦ rw known (
            Steps-transaction (Changes H) same_units join_units
              (record_attempt c execution_id outcome status result error retry_at)
              (record_attempt-Changes c execution_id outcome status result error retry_at held
                known)
              db)
      ]

  pub dead_letter-Changes : (c : ClaimedUnit) → H c → Steps (Changes H) (dead_letter c)
  unfolding dead_letter
  dead_letter-Changes c held db = Change.dead c db.units held

  pub finalize-Changes : (run : String) → Steps (Changes H) (finalize_run_if_done run)
  unfolding finalize_run_if_done
  finalize-Changes run db = unchanged db.units _ (ground arith)
