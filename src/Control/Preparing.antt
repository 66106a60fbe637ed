-- ===== src/Control/Preparing.antt =====
-- src/distributed_runtime/control/planner.py: lemmas on what `plan` does before it stores anything.
use ptf.Prelude.{
  ℕ, ◌≡◌, inl, inr, Bool-cases, refl, sym, ap, ◌∙◌, subst, String, Bool, true, ◌&&◌, Option,
  Option-cases, none, some, List, [], ◌∷◌, map, arith, nat_eq, eq_iff,
}
use ptf.Prelude.Table.{
  find_where, exists_where, select_where, exists-order_by, exists-select, find_satisfies,
}
use ptf.Core.Enums.{WorkloadMode}
use ptf.Core.Errors.{Result, Result-cases, ok, err, Error, lookup_error}
use ptf.Core.Json.{JsonFields}
use ptf.Finite.Unit.{
  WorkloadRequest, ExecutionUnit, PlanningRecord, records_eq→eq, planning_records,
}
use ptf.Finite.Validate.{no_token, collect, meets_expected}
use ptf.Finite.Drift.{validate_plan-ok}
use ptf.Registry.Workloads.{FiniteRegistration, RuntimeRegistry, WorkloadRegistration, workload}
use ptf.State.Db.{Db, PlanRow}
use ptf.State.Tx.{Tx, lift, or_raise, bind-inv, ◌>>=◌}
use ptf.State.Finite.Runs.{StoredRun, map_run, has_run_id, get_run, request_of}
use ptf.State.Finite.Plan.{load_plan, plan_records, in_generation, stored_record}
use ptf.Control.Planner.{PlannerRunner}
use ptf.Control.Planning.{finite_of, pinned, plan_units, planned_units, prepare_plan}

pub exists-implies :
    {A : Type 0} (p q : A → Bool) (xs : List A)
    → ((x : A) → p x ≡ true → q x ≡ true)
    → exists_where p xs ≡ true
    → exists_where q xs ≡ true
unfolding exists_where
exists-implies p q [] h e = e
exists-implies p q (x ∷ xs) h e = elim (Bool-cases (p x)) [
  | inl holds ↦ ground (arith, h x holds)
  | inr fails ↦ ground (arith, e, fails, exists-implies p q xs h)
]

first_record :
    (rows : List PlanRow) (r : PlanningRecord) (rs : List PlanningRecord)
    → map stored_record rows ≡ r ∷ rs
    → exists_where (λ p. nat_eq p.ordinal r.ordinal) rows ≡ true
unfolding exists_where
first_record [] r rs e = absurd (cc)
first_record (p ∷ ps) r rs e = ground (arith, e)

-- the row of a durable plan whose ordinal its first record has
pub plan_records-first :
    (id : String) (gen : ℕ) (db : Db) (r : PlanningRecord) (rs : List PlanningRecord)
    → plan_records id gen db ≡ r ∷ rs
    → exists_where (λ p. in_generation id gen p && nat_eq p.ordinal r.ordinal) db.plan_units ≡ true
unfolding plan_records
plan_records-first id gen db r rs e =
    sym (exists-select (in_generation id gen) (λ p. nat_eq p.ordinal r.ordinal) db.plan_units)
    ∙ (sym (
          exists-order_by _ (λ p. nat_eq p.ordinal r.ordinal)
            (select_where (in_generation id gen) db.plan_units))
        ∙ first_record _ r rs e)

pub found_id :
    (id : String) (db : Db) (run : StoredRun)
    → map_run (find_where (has_run_id id) db.runs) ≡ some run
    → id ≡ run.run_id
found_id id db run e = elim (Option-cases (find_where (has_run_id id) db.runs)) [
  | inl missing ↦ absurd (ground (arith, e, missing))
  | inr (row, h) ↦
      ground (arith, e, h, find_satisfies (has_run_id id) db.runs row h, eq_iff row.run_id id)
]

-- units that agree with a durable plan start with its first record
pub planned_units-first :
    (digest : JsonFields → String) (r : PlanningRecord) (rs : List PlanningRecord)
    (emitted : List ExecutionUnit × Option Error) (units : List ExecutionUnit)
    → planned_units digest (r ∷ rs) emitted ≡ ok units
    → planning_records digest 0 units ≡ r ∷ rs
unfolding planned_units meets_expected
planned_units-first digest r rs (us, none) units e =
    records_eq→eq _ _ (validate_plan-ok digest no_token (some (r ∷ rs)) us units e).2
planned_units-first digest r rs (us, some raised) units e =
    elim (Result-cases (collect digest no_token 1 [] us)) [
      | inl (vs, h) ↦ absurd (ground (arith, e, h))
      | inr (x, h) ↦ absurd (ground (arith, e, h))
    ]

module _ {P H W S : Type 0} (sha256 : String → String) (digest : JsonFields → String)
    (registry : RuntimeRegistry P H W S) (runner : PlannerRunner)
    (run_planner : P → WorkloadRequest → List ExecutionUnit × Option Error) where
  abbrev prepare : String → Tx (StoredRun × List ExecutionUnit)
  prepare = prepare_plan sha256 digest registry runner run_planner

  abbrev choose : String → StoredRun → FiniteRegistration P H → Tx (StoredRun × List ExecutionUnit)
  choose = plan_units sha256 digest registry runner run_planner

  abbrev from_run : String → StoredRun → Tx (StoredRun × List ExecutionUnit)
  from_run id run =
      lift (pinned sha256 digest registry runner run_planner run) >>= λ r. choose id run r

  plan_units-reads :
      (id : String) (run : StoredRun) (r : FiniteRegistration P H) (db : Db)
      → (choose id run r db).1 ≡ db
  unfolding plan_units load_plan
  plan_units-reads id run r db =
      elim (Result-cases (
        planned_units digest (plan_records id run.planning_generation db)
          (run_planner r.planner (request_of run)))) [
            | inl (units, h) ↦ rw h refl
            | inr (e, h) ↦ rw h refl
          ]

  from_run-reads : (id : String) (run : StoredRun) (db : Db) → (from_run id run db).1 ≡ db
  from_run-reads id run db =
      elim (Result-cases (pinned sha256 digest registry runner run_planner run)) [
        | inl (r, h) ↦ rw h (plan_units-reads id run r db)
        | inr (e, h) ↦ rw h refl
      ]

  prepare_plan-reads : (id : String) (db : Db) → (prepare id db).1 ≡ db
  unfolding prepare_plan get_run
  prepare_plan-reads id db = elim (Option-cases (map_run (find_where (has_run_id id) db.runs))) [
    | inl missing ↦ rw missing refl
    | inr (run, h) ↦ rw h (from_run-reads id run db)
  ]

  -- how the preparation ends, with the database as it was
  pub prepare_plan-ends :
      (id : String) (db : Db) (r : Result (StoredRun × List ExecutionUnit))
      → (prepare id db).0 ≡ r
      → prepare id db ≡ (r, db)
  prepare_plan-ends id db r h =
      ap (λ x. (x, (prepare id db).1)) h ∙ ap (λ d. (r, d)) (prepare_plan-reads id db)

  -- what a preparation that succeeded has found
  pub record Finds (id : String) (db : Db) (run : StoredRun) (units : List ExecutionUnit)
      : Type 0 where
    pub registration : FiniteRegistration P H
    -- the registry has it for the name and the version that the run is pinned to
    pub registered :
        workload run.workload_name run.workload_version WorkloadMode.finite registry
        ≡ ok (WorkloadRegistration.finite registration)
    -- its planner gave the units for the request of the run
    pub given :
        planned_units digest
          (plan_records id run.planning_generation db)
          (run_planner registration.planner (request_of run))
        ≡ ok units

  finite_of-finite :
      (answer : Result (WorkloadRegistration P H W)) (r : FiniteRegistration P H)
      → elim answer [ ok registration ↦ finite_of registration | err e ↦ err e ] ≡ ok r
      → answer ≡ ok (WorkloadRegistration.finite r)
  finite_of-finite (ok (WorkloadRegistration.finite f)) r h =
      ap (λ x. elim x [ ok y ↦ ok (WorkloadRegistration.finite y) | err e ↦ err e ]) h
  finite_of-finite (ok (WorkloadRegistration.continuous c)) r h = absurd (cc)
  finite_of-finite (err e) r h = absurd (cc)

  pinned-registered :
      (run : StoredRun) (r : FiniteRegistration P H)
      → pinned sha256 digest registry runner run_planner run ≡ ok r
      → workload run.workload_name run.workload_version WorkloadMode.finite registry
        ≡ ok (WorkloadRegistration.finite r)
  unfolding pinned
  pinned-registered run r h = finite_of-finite _ r h

  plan_units-found :
      (id : String) (start : StoredRun) (r : FiniteRegistration P H) (db : Db) (run : StoredRun)
      (units : List ExecutionUnit)
      → (choose id start r db).0 ≡ ok (run, units)
      → (start ≡ run)
        × (planned_units digest
              (plan_records id start.planning_generation db)
              (run_planner r.planner (request_of start))
            ≡ ok units)
  unfolding plan_units load_plan
  plan_units-found id start r db run units h =
      elim (Result-cases (
        planned_units digest (plan_records id start.planning_generation db)
          (run_planner r.planner (request_of start)))) [
            | inl (us, e) ↦ (ground (arith, h, e), ground (arith, h, e))
            | inr (x, e) ↦ absurd (ground (arith, h, e))
          ]

  from_run-found :
      (id : String) (start : StoredRun) (db : Db) (run : StoredRun) (units : List ExecutionUnit)
      → (from_run id start db).0 ≡ ok (run, units)
      → (start ≡ run) × Finds id db start units
  from_run-found id start db run units h =
      let (r, d, e, h1, _) =
        bind-inv (lift (pinned sha256 digest registry runner run_planner start)) (choose id start)
          db (run, units) h in
      let (same, planned) =
        plan_units-found id start r db run units
          (subst (λ x. (choose id start r x).0 ≡ ok (run, units)) (sym (ap (λ x. x.1) e)) h1) in
      (
        same,
        record {
          registration = r;
          registered = pinned-registered start r (ap (λ x. x.0) e);
          given = planned;
        },
      )

  pub prepare_plan-found :
      (id : String) (db : Db) (run : StoredRun) (units : List ExecutionUnit)
      → (prepare id db).0 ≡ ok (run, units)
      → (map_run (find_where (has_run_id id) db.runs) ≡ some run) × Finds id db run units
  unfolding prepare_plan get_run
  prepare_plan-found id db run units h =
      elim (Option-cases (map_run (find_where (has_run_id id) db.runs))) [
        | inl missing ↦ absurd (ground (arith, h, missing))
        | inr (start, found) ↦
            let (same, finds) = from_run-found id start db run units (
              sym (ap (λ o. ((or_raise o (lookup_error "unknown run") >>= from_run id) db).0) found)
              ∙ h) in
            (found ∙ ap some same, subst (λ x. Finds id db x units) same finds)
      ]
