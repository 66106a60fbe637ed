-- ===== src/Worker/Unregistered.antt =====
-- A wake-up for a workload that the worker has not registered.
use ptf.Prelude.{ℕ, ◌≡◌, refl, ap, ◌∙◌, String, true, false, ◌==◌, some}
use ptf.Prelude.Table.{find_where}
use ptf.Core.Enums.{WorkloadMode}
use ptf.Core.Envelope.{VersionedEnvelope}
use ptf.Core.Errors.{ok, err, Error}
use ptf.Core.Identifier.{IdentifierKind, identifier}
use ptf.Core.Json.{JsonValue, JsonFields}
use ptf.Finite.Context.{ExecutionContext}
use ptf.Registry.Workloads.{RuntimeRegistry, workload}
use ptf.State.Db.{Db, RunRow, UnitRow, PlanRow}
use ptf.State.Tx.{bind-ok, bind-err, pure}
use ptf.State.Finite.Runs.{has_run_id}
use ptf.State.Finite.Plan.{has_key, latest_plan}
use ptf.State.Finite.Claim.{ClaimedUnit, is_due, claim_unit}
use ptf.State.Finite.Exclusion.{IsKeyed, claimed, running_row, claim_unit-granted, claim_unit-db}
use ptf.Worker.Execute.{FiniteWorker, prepare, attempt_unit, execute_claimed}
use ptf.Worker.Handle.{Times, execute_if, claim_and_execute, handle_envelope, unit_key_of}
use ptf.Worker.Outcome.{pair}
use ptf.Worker.Settle.{Attempted}

module _ {P H W S : Type 0} (sha256 : String → String) (show_unexpected : String → String → String)
    (registry : RuntimeRegistry P H W S) (worker : FiniteWorker)
    (run_handler : H → ExecutionContext → JsonFields → Attempted) where
  prepare-unregistered :
      (monotonic : ℕ) (c : ClaimedUnit) (db : Db) (r : RunRow) (e : Error)
      → find_where (has_run_id c.run_id) db.runs ≡ some r
      → workload r.workload_name r.workload_version WorkloadMode.finite registry ≡ err e
      → prepare sha256 show_unexpected registry worker run_handler monotonic c db ≡ (err e, db)
  unfolding prepare
  prepare-unregistered monotonic c db r e found unknown = rw (found, unknown) refl

  -- A wake-up for a unit that is due, of a run whose workload the worker has not registered, raises
  -- the error of the look-up after the claim was committed: no handler runs, no attempt is recorded,
  -- and the unit is left running, claimed by the worker until the timeout of
  -- its plan and the grace are over, with the attempt counted.
  pub handle_envelope_unregistered :
      (show : JsonValue → String) (times : Times) (meanwhile : Db → Db)
      (envelope : VersionedEnvelope) (db : Db) (u : UnitRow) (p : PlanRow) (r : RunRow) (e : Error)
      → IsKeyed db.units
      → find_where (has_key u.run_id u.unit_key) db.units ≡ some u
      → latest_plan u.run_id u.unit_key db.plan_units ≡ some p
      → is_due times.claim u ≡ true
      → find_where (has_run_id u.run_id) db.runs ≡ some r
      → workload r.workload_name r.workload_version WorkloadMode.finite registry ≡ err e
      → identifier IdentifierKind.run_id envelope.run_id ≡ ok u.run_id
      → unit_key_of show envelope ≡ u.unit_key
      → (u.unit_key == "") ≡ false
      → let (answer, after) =
          handle_envelope sha256 show_unexpected registry worker run_handler show times meanwhile
            envelope db in
        (answer ≡ err e)
        × (after.attempts ≡ db.attempts)
        × (find_where (has_key u.run_id u.unit_key) after.units
            ≡ some
                (running_row times.claim worker.instance_id worker.policy.claim_grace_seconds u p))
  unfolding handle_envelope claim_and_execute execute_if execute_claimed
  handle_envelope_unregistered show times meanwhile envelope db u p r e keyed found planned due
        of_run unknown run_named key_named key_given =
      let grace = worker.policy.claim_grace_seconds in
      let c = claimed times.claim worker.instance_id grace u p in
      let claim = claim_unit times.claim worker.instance_id u.run_id u.unit_key grace in
      let held : Db = (claim db).1 in
      let wrote = claim_unit-db times.claim worker.instance_id u.run_id u.unit_key grace db in
      let granted =
        claim_unit-granted times.claim worker.instance_id u.run_id u.unit_key grace db u keyed found
          p planned due in
      let of_held : find_where (has_run_id u.run_id) held.runs ≡ some r =
        ap (λ (d : Db). find_where (has_run_id u.run_id) d.runs) wrote ∙ of_run in
      let execute =
        execute_claimed sha256 show_unexpected registry worker run_handler times.monotonic
          times.settled meanwhile c in
      let stops : execute held ≡ (err e, held) =
        bind-err (prepare sha256 show_unexpected registry worker run_handler times.monotonic c)
          (attempt_unit sha256 show_unexpected registry worker run_handler times.settled meanwhile
            c)
          held e held (prepare-unregistered times.monotonic c held r e of_held unknown) in
      let run =
        bind-ok claim
          (execute_if sha256 show_unexpected registry worker run_handler times meanwhile) db
          (some c) held (pair granted.0)
        ∙ bind-err execute (λ handled. pure (some handled)) held e held stops in
      rw (run_named, key_named, key_given)
        (
          ap (λ x. x.0) run,
          ap (λ x. x.1.attempts) run ∙ ap (λ (d : Db). d.attempts) wrote,
          ap (λ x. find_where (has_key u.run_id u.unit_key) x.1.units) run ∙ granted.1,
        )
