-- ===== src/Control/Replanning.antt =====
-- src/distributed_runtime/control/planner.py: the planning of a run as a whole, the first time and
-- again.
use ptf.Prelude.{
  ℕ, ◌≡◌, ◌⊎◌, inl, inr, sym, ap, ◌∙◌, subst, String, true, ◌&&◌, Option, none, some, List, [], ◌∷◌,
  arith, All, nat_eq,
}
use ptf.Prelude.Table.{find_where, exists_where}
use ptf.Core.Wire.{Stamp}
use ptf.Core.Errors.{Result, Result-cases, ok, err, Error, unique_violation}
use ptf.Core.Json.{JsonFields}
use ptf.Finite.Unit.{WorkloadRequest, ExecutionUnit, PlanningRecord, planning_records}
use ptf.Registry.Workloads.{RuntimeRegistry}
use ptf.State.Db.{Db}
use ptf.State.Tx.{Tx, pure, bind-ok, bind-err, ◌>>◌}
use ptf.State.Finite.Runs.{StoredRun, map_run, has_run_id, request_of}
use ptf.State.Finite.Plan.{plan_records, in_generation, plan_row, clashes, not_plannable}
use ptf.Control.Planner.{PlannerRunner, persist}
use ptf.Control.Intents.{IsPlanned}
use ptf.Control.Storing.{persist-clash}
use ptf.Control.Planning.{PlanOutcome, planned_units, prepare_plan, outcome_of, store_units, plan}
use ptf.Control.Preparing.{
  exists-implies, plan_records-first, planned_units-first, found_id, Finds, prepare_plan-ends,
  prepare_plan-found,
}

module _ {P H W S : Type 0} (sha256 : String → String) (digest : JsonFields → String)
    (registry : RuntimeRegistry P H W S) (runner : PlannerRunner)
    (run_planner : P → WorkloadRequest → List ExecutionUnit × Option Error) where
  abbrev prepare : String → Tx (StoredRun × List ExecutionUnit)
  prepare = prepare_plan sha256 digest registry runner run_planner

  module _ (now : ℕ) (stamp : Stamp) where
    abbrev store : StoredRun → List ExecutionUnit → Tx (Unit {0})
    store run units = persist sha256 digest runner now stamp run run.planning_generation units

    abbrev planned : String → Tx PlanOutcome
    planned = plan sha256 digest registry runner run_planner now stamp

    plan-raised :
        (id : String) (db : Db) (e : Error)
        → (prepare id db).0 ≡ err e
        → planned id db ≡ (err e, db)
    unfolding plan
    plan-raised id db e h =
        bind-err (prepare id) (store_units sha256 digest registry runner run_planner now stamp id)
          db e db (prepare_plan-ends sha256 digest registry runner run_planner id db (err e) h)

    plan-stored :
        (id : String) (db : Db) (run : StoredRun) (units : List ExecutionUnit)
        → (prepare id db).0 ≡ ok (run, units)
        → planned id db ≡ (store run units >> pure (outcome_of (run, units) id)) db
    unfolding plan store_units
    plan-stored id db run units h =
        bind-ok (prepare id) (store_units sha256 digest registry runner run_planner now stamp id) db
          (run, units) db
          (prepare_plan-ends sha256 digest registry runner run_planner id db (ok (run, units)) h)

    -- How planning ends: the run was found and its planner gave units that its durable plan allows, all
    -- of which are stored with their dispatch messages, or nothing was written and the call raised.
    pub data PlanEnds (id : String) (db : Db) (out : Result PlanOutcome × Db) : Type 0 where
      stored :
          (run : StoredRun) (units : List ExecutionUnit)
          → map_run (find_where (has_run_id id) db.runs) ≡ some run
          → Finds sha256 digest registry runner run_planner id db run units
          → All (λ u. IsPlanned run.run_id u.unit_key out.1) units
          → (out.0 ≡ ok (outcome_of (run, units) id)) ⊎ (out.0 ≡ err not_plannable)
          → PlanEnds id db out
      unchanged : (e : Error) → out.0 ≡ err e → out.1 ≡ db → PlanEnds id db out

    store-raised :
        (id : String) (db : Db) (run : StoredRun) (units : List ExecutionUnit) (e : Error)
        → (prepare id db).0 ≡ ok (run, units)
        → (store run units db).0 ≡ err e
        → planned id db ≡ (err e, (store run units db).1)
    store-raised id db run units e h a =
        plan-stored id db run units h
        ∙ bind-err (store run units) (λ _. pure (outcome_of (run, units) id)) db e
            (store run units db).1 (ap (λ x. (x, (store run units db).1)) a)

    clash_of_record :
        (id run : String) (gen : ℕ) (u : ExecutionUnit) (db : Db)
        → id ≡ run
        → exists_where (λ p. in_generation id gen p && nat_eq p.ordinal 0) db.plan_units ≡ true
        → exists_where (clashes (plan_row digest run gen 0 u)) db.plan_units ≡ true
    clash_of_record id run gen u db same e =
        exists-implies _ (clashes (plan_row digest run gen 0 u)) db.plan_units
          (λ p h. ground (arith, h))
          (subst
            (λ x.
              exists_where (λ p. in_generation x gen p && nat_eq p.ordinal 0) db.plan_units ≡ true)
            same e)

    stored_again :
        (id : String) (db : Db) (start : StoredRun) (record_0 : PlanningRecord)
        (records : List PlanningRecord) (units : List ExecutionUnit)
        → id ≡ start.run_id
        → plan_records id start.planning_generation db ≡ record_0 ∷ records
        → planning_records digest 0 units ≡ record_0 ∷ records
        → (prepare id db).0 ≡ ok (start, units)
        → (e : Error) × (planned id db ≡ (err e, db))
    unfolding planning_records
    stored_again id db start record_0 records [] same durable agree h = absurd (cc)
    stored_again id db start record_0 records (u ∷ us) same durable agree h =
        let gen = start.planning_generation in
        let first : exists_where (λ p. in_generation id gen p && nat_eq p.ordinal 0) db.plan_units
            ≡ true =
          subst
            (λ n.
              exists_where (λ p. in_generation id gen p && nat_eq p.ordinal n) db.plan_units ≡ true)
            (ground (arith, agree)) (plan_records-first id gen db record_0 records durable) in
        let ended =
          persist-clash sha256 digest runner now stamp start gen u us db
            (clash_of_record id start.run_id gen u db same first) in
        (
          unique_violation,
          store-raised id db start (u ∷ us) unique_violation h (ap (λ r. r.0) ended)
              ∙ ap (λ r. (err unique_violation, r.1)) ended,
        )

    -- A run that has a durable plan for its generation cannot be planned again, whether or not its
    -- planner still gives that plan: the call raises, and the database is as it was.
    pub plan_again :
        (id : String) (db : Db) (run : StoredRun) (record_0 : PlanningRecord)
        (records : List PlanningRecord)
        → map_run (find_where (has_run_id id) db.runs) ≡ some run
        → plan_records id run.planning_generation db ≡ record_0 ∷ records
        → (e : Error) × (planned id db ≡ (err e, db))
    plan_again id db run record_0 records known durable = elim (Result-cases (prepare id db).0) [
      | inr (e, h) ↦ (e, plan-raised id db e h)
      | inl ((start, units), h) ↦
          let (found, finds) =
            prepare_plan-found sha256 digest registry runner run_planner id db start units h in
          let same : start ≡ run =
            ap (λ o. elim o [ none ↦ start | some x ↦ x ]) (sym found ∙ known) in
          let durable_start =
            subst (λ (x : StoredRun). plan_records id x.planning_generation db ≡ record_0 ∷ records)
              (sym same) durable in
          stored_again id db start record_0 records units (found_id id db start found) durable_start
            (planned_units-first digest record_0 records _ units (
              subst
                (λ rs.
                  planned_units digest rs
                    (run_planner finds.registration.planner (request_of start))
                  ≡ ok units)
                durable_start finds.given))
            h
    ]
