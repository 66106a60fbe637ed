-- ===== src/Worker/Delivery.antt =====
-- A wake-up from its claim to its record.
use ptf.Prelude.{ℕ, ◌≤◌, ◌≡◌, refl, ap, ◌∙◌, String, true, false, ◌==◌, none, some, arith, leb}
use ptf.Prelude.Table.{find_where}
use ptf.Core.Enums.{WorkloadMode}
use ptf.Core.Envelope.{VersionedEnvelope}
use ptf.Core.Errors.{ok}
use ptf.Core.Identifier.{IdentifierKind, identifier, not_empty}
use ptf.Core.Json.{JsonValue, JsonFields}
use ptf.Core.Lifecycle.{new_source, after}
use ptf.Core.Name.{matches_name, codes, require_contract_name}
use ptf.Finite.Context.{ExecutionContext}
use ptf.Finite.Unit.{execution_id}
use ptf.Registry.Workloads.{FiniteRegistration, WorkloadRegistration, RuntimeRegistry, workload}
use ptf.State.Db.{Db, RunRow, UnitRow, PlanRow}
use ptf.State.Tx.{bind-ok, bind-answer_db}
use ptf.State.Finite.Runs.{has_run_id, run_from_row, request_of}
use ptf.State.Finite.Plan.{has_key, latest_plan}
use ptf.State.Finite.Claim.{ClaimedUnit, is_due, claim_unit}
use ptf.State.Finite.Exclusion.{IsKeyed, claimed, running_row, claim_unit-granted, claim_unit-db}
use ptf.Worker.Execute.{FiniteWorker, prepare, attempt_unit, execute_claimed}
use ptf.Worker.Handle.{Times, execute_if, claim_and_execute, handle_envelope, unit_key_of}
use ptf.Worker.Outcome.{pair}
use ptf.Worker.Settle.{Attempted}
use ptf.Worker.Settled.{settled_row, encodes, settle-unit, IsSettled, settled_row-IsSettled}

module _ {P H W S : Type 0} (sha256 : String → String) (show_unexpected : String → String → String)
    (registry : RuntimeRegistry P H W S) (worker : FiniteWorker)
    (run_handler : H → ExecutionContext → JsonFields → Attempted) where
  -- the context of the attempt `c` of a run
  abbrev pub context_of : ℕ → RunRow → ClaimedUnit → ExecutionContext
  context_of monotonic r c = record {
    run_id = c.run_id;
    execution_id = execution_id sha256 c.unit (request_of (run_from_row r));
    attempt = c.attempt;
    idempotency_key = c.unit.idempotency_key;
    cancellation = new_source;
    deadline = some (after monotonic c.unit.timeout_seconds none);
  }

  prepare-registered :
      (monotonic : ℕ) (c : ClaimedUnit) (db : Db) (r : RunRow) (f : FiniteRegistration P H)
      → find_where (has_run_id c.run_id) db.runs ≡ some r
      → workload r.workload_name r.workload_version WorkloadMode.finite registry
        ≡ ok (WorkloadRegistration.finite f)
      → matches_name (codes c.unit.idempotency_key) ≡ true
      → 1 ≤ c.attempt
      → prepare sha256 show_unexpected registry worker run_handler monotonic c db
        ≡ (ok (f.handler, context_of monotonic r c), db)
  unfolding prepare require_contract_name
  prepare-registered monotonic c db r f found registered named counted =
      let filled = not_empty c.unit.idempotency_key named in
      let counts : leb 1 c.attempt ≡ true = ground (arith, counted) in
      rw (found, registered, filled, counts, named) refl

  module _ (times : Times) (meanwhile : Db → Db) (db : Db) (u : UnitRow) (p : PlanRow) (r : RunRow)
      (f : FiniteRegistration P H) (keyed : IsKeyed db.units)
      (found : find_where (has_key u.run_id u.unit_key) db.units ≡ some u)
      (planned : latest_plan u.run_id u.unit_key db.plan_units ≡ some p)
      (due : is_due times.claim u ≡ true)
      (of_run : find_where (has_run_id u.run_id) db.runs ≡ some r)
      (registered : workload r.workload_name r.workload_version WorkloadMode.finite registry
        ≡ ok (WorkloadRegistration.finite f))
      (named : matches_name (codes p.unit.idempotency_key) ≡ true) where
    abbrev grace : ℕ
    grace = worker.policy.claim_grace_seconds

    -- the claim, the database after it, and the row that it leaves
    abbrev pub claim_of : ClaimedUnit
    claim_of = claimed times.claim worker.instance_id grace u p

    abbrev pub held_db : Db
    held_db = (claim_unit times.claim worker.instance_id u.run_id u.unit_key grace db).1

    abbrev pub held_row : UnitRow
    held_row = running_row times.claim worker.instance_id grace u p

    -- how the handler's call ends
    abbrev pub ended_of : Attempted
    ended_of = run_handler f.handler (context_of times.monotonic r claim_of) p.unit.payload

    module _ (keyed' : IsKeyed (meanwhile held_db).units)
        (kept : find_where (has_key u.run_id u.unit_key) (meanwhile held_db).units ≡ some held_row)
        (finite : encodes show_unexpected times.settled worker.policy claim_of ended_of
          ≡ true) where
      execute_claimed-unit :
          find_where
            (has_key u.run_id u.unit_key)
            (execute_claimed sha256 show_unexpected registry worker run_handler times.monotonic
              times.settled meanwhile claim_of held_db).1.units
          ≡ some
              (settled_row show_unexpected times.settled worker.policy claim_of ended_of held_row)
      unfolding execute_claimed attempt_unit
      execute_claimed-unit =
          let runs_kept : find_where (has_run_id u.run_id) held_db.runs ≡ some r =
            ap (λ (d : Db). find_where (has_run_id u.run_id) d.runs)
              (claim_unit-db times.claim worker.instance_id u.run_id u.unit_key grace db)
            ∙ of_run in
          let context = context_of times.monotonic r claim_of in
          let ready =
            prepare-registered times.monotonic claim_of held_db r f runs_kept registered named
              (omega arith) in
          let run =
            bind-ok
              (prepare sha256 show_unexpected registry worker run_handler times.monotonic claim_of)
              (attempt_unit sha256 show_unexpected registry worker run_handler times.settled
                meanwhile claim_of)
              held_db (f.handler, context) held_db ready in
          ap (λ x. find_where (has_key u.run_id u.unit_key) x.1.units) run
          ∙ settle-unit show_unexpected times.settled worker.policy claim_of (meanwhile held_db)
              held_row keyed' kept refl context.execution_id ended_of finite

      claim_and_execute-unit :
          find_where
            (has_key u.run_id u.unit_key)
            (claim_and_execute sha256 show_unexpected registry worker run_handler times meanwhile
              u.run_id u.unit_key db).1.units
          ≡ some
              (settled_row show_unexpected times.settled worker.policy claim_of ended_of held_row)
      unfolding claim_and_execute execute_if
      claim_and_execute-unit =
          let claim = claim_unit times.claim worker.instance_id u.run_id u.unit_key grace in
          let granted =
            claim_unit-granted times.claim worker.instance_id u.run_id u.unit_key grace db u keyed
              found p planned due in
          let run =
            bind-ok claim
              (execute_if sha256 show_unexpected registry worker run_handler times meanwhile) db
              (some claim_of) held_db (pair granted.0) in
          let execute =
            execute_claimed sha256 show_unexpected registry worker run_handler times.monotonic
              times.settled meanwhile claim_of in
          ap (λ x. find_where (has_key u.run_id u.unit_key) x.1.units) run
          ∙ (ap (λ (d : Db). find_where (has_key u.run_id u.unit_key) d.units)
                (bind-answer_db execute some held_db)
              ∙ execute_claimed-unit)

      -- A wake-up for a planned unit that is due, of a run whose workload is registered, leaves the
      -- unit as the call of the unit's handler under the next attempt ends, provided that no one
      -- else writes the unit's row while the handler runs, and that the floats of the result or of
      -- the recorded error are finite: the unit is neither running nor claimed any more, and waits
      -- for another attempt only if one is left.
      pub handle_envelope_lem :
          (show : JsonValue → String) (envelope : VersionedEnvelope)
          → identifier IdentifierKind.run_id envelope.run_id ≡ ok u.run_id
          → unit_key_of show envelope ≡ u.unit_key
          → (u.unit_key == "") ≡ false
          → let after =
              (handle_envelope sha256 show_unexpected registry worker run_handler show times
                meanwhile envelope db).1 in
            let row =
              settled_row show_unexpected times.settled worker.policy claim_of ended_of held_row in
            (find_where (has_key u.run_id u.unit_key) after.units ≡ some row)
            × IsSettled show_unexpected times.settled worker.policy claim_of held_row row
      unfolding handle_envelope
      handle_envelope_lem show envelope run_named key_named key_given = (
        rw (run_named, key_named, key_given) claim_and_execute-unit,
        settled_row-IsSettled show_unexpected times.settled worker.policy claim_of ended_of
            held_row,
      )
