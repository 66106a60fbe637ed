-- ===== src/Control/Storing.antt =====
-- The storing of a plan with its dispatch messages.
use ptf.Prelude.{
  ℕ, suc, ◌≡◌, refl, ap, ◌∙◌, sym, String, true, none, List, [], ◌∷◌, arith, nat_eq, subst, inl,
  inr, ◌⊎◌, Bool-cases, All, All-implies, eq_refl,
}
use ptf.Prelude.Table.{exists_where}
use ptf.Core.Wire.{Stamp}
use ptf.Core.Envelope.{VersionedEnvelope}
use ptf.Core.Errors.{ok, err, Error, unique_violation, Result-cases}
use ptf.Core.Json.{JsonFields}
use ptf.Finite.Unit.{ExecutionUnit}
use ptf.State.Db.{Db, PlanRow}
use ptf.State.Tx.{
  Tx, lift, ◌>>=◌, bind-ok, bind-err, bind-inv, transaction, transaction-err, transaction-ok,
  raise_if, ◌>>◌,
}
use ptf.State.Steps.{Steps, Steps-bind, Steps-then}
use ptf.State.Finite.Runs.{StoredRun}
use ptf.State.Finite.Plan.{
  plans_key, has_key, clashes, plan_row, insert_plan_row, insert_ready, not_plannable,
}
use ptf.State.Outbox.{insert_outbox}
use ptf.Control.Planner.{
  PlannerRunner, dispatch_envelope, dispatch_key, persist_unit, persist_units, mark_running,
  persist,
}
use ptf.Control.Intents.{
  IsPlanned, Keeps, same_rows, chain_rows, IsPlanned-Keeps, insert_plan_row-Keeps,
  insert_plan_row-stores, insert_ready-Keeps, insert_ready-stores, outbox_has, insert_outbox-Keeps,
}

module _ (sha256 : String → String) (digest : JsonFields → String) (runner : PlannerRunner)
    (now : ℕ) (stamp : Stamp) (run : StoredRun) (generation : ℕ) where
  abbrev send : ExecutionUnit → VersionedEnvelope → Tx ℕ
  send unit envelope =
      insert_outbox now "unit_dispatch" (dispatch_key run.run_id unit.unit_key)
        runner.dispatch_topic envelope none

  abbrev announce : ExecutionUnit → Tx ℕ
  announce unit = lift (dispatch_envelope sha256 runner stamp run unit) >>= send unit

  abbrev store : ℕ → ExecutionUnit → Tx ℕ
  store = persist_unit sha256 digest runner now stamp run generation

  abbrev store_all : ℕ → List ExecutionUnit → Tx (Unit {0})
  store_all = persist_units sha256 digest runner now stamp run generation

  persist_unit-Keeps : (n : ℕ) (unit : ExecutionUnit) → Steps Keeps (store n unit)
  unfolding persist_unit
  persist_unit-Keeps n unit =
      Steps-then Keeps same_rows chain_rows
        (insert_plan_row (plan_row digest run.run_id generation n unit))
        (insert_ready run.run_id unit.unit_key >> announce unit)
        (insert_plan_row-Keeps (plan_row digest run.run_id generation n unit))
        (Steps-then Keeps same_rows chain_rows (insert_ready run.run_id unit.unit_key)
          (announce unit) (insert_ready-Keeps run.run_id unit.unit_key)
          (Steps-bind Keeps same_rows chain_rows
            (lift (dispatch_envelope sha256 runner stamp run unit)) (send unit) same_rows
            (λ envelope.
              insert_outbox-Keeps now "unit_dispatch" (dispatch_key run.run_id unit.unit_key)
                runner.dispatch_topic envelope none)))

  persist_units-Keeps : (n : ℕ) (units : List ExecutionUnit) → Steps Keeps (store_all n units)
  unfolding persist_units
  persist_units-Keeps n [] db = same_rows db
  persist_units-Keeps n (u ∷ us) db =
      Steps-bind Keeps same_rows chain_rows (store n u) (λ _. store_all (suc n) us)
        (persist_unit-Keeps n u) (λ _. persist_units-Keeps (suc n) us) db

  persist_unit-stores :
      (n : ℕ) (u : ExecutionUnit) (db : Db) (id : ℕ)
      → (store n u db).0 ≡ ok id
      → IsPlanned run.run_id u.unit_key (store n u db).1
  unfolding persist_unit
  persist_unit-stores n u db id h =
      let row = plan_row digest run.run_id generation n u in
      let (_, d1, e1, h1, a1) =
        bind-inv (insert_plan_row row) (λ _. insert_ready run.run_id u.unit_key >> announce u) db id
          h in
      let (_, d2, e2, h2, a2) =
        bind-inv (insert_ready run.run_id u.unit_key) (λ _. announce u) d1 id h1 in
      let (env, d2', e3, h3, a3) =
        bind-inv (lift (dispatch_envelope sha256 runner stamp run u)) (send u) d2 id h2 in
      let key = u.unit_key in
      let d3 = (send u env d2').1 in
      let planned1 : exists_where (plans_key run.run_id key) d1.plan_units ≡ true =
        subst (λ x. exists_where (plans_key run.run_id key) x.plan_units ≡ true) (ap (λ r. r.1) e1)
          (insert_plan_row-stores row db (ap (λ r. r.0) e1)) in
      let kept2 : Keeps d1 d2 =
        subst (Keeps d1) (ap (λ r. r.1) e2) (insert_ready-Keeps run.run_id key d1) in
      let ready2 : exists_where (has_key run.run_id key) d2.units ≡ true =
        subst (λ x. exists_where (has_key run.run_id key) x.units ≡ true) (ap (λ r. r.1) e2)
          (insert_ready-stores run.run_id key d1 (ap (λ r. r.0) e2)) in
      let same : d2 ≡ d2' = ap (λ r. r.1) e3 in
      let name = dispatch_key run.run_id key in
      let kept3 : Keeps d2' d3 =
        insert_outbox-Keeps now "unit_dispatch" name runner.dispatch_topic env none d2' in
      subst (IsPlanned run.run_id key) (sym (a1 ∙ (a2 ∙ a3))) (record {
        planned = kept3.plans run.run_id key (
            subst (λ x. exists_where (plans_key run.run_id key) x.plan_units ≡ true) same
              (kept2.plans run.run_id key planned1));
        materialized =
            kept3.rows run.run_id key
              (subst (λ x. exists_where (has_key run.run_id key) x.units ≡ true) same ready2);
        announced =
            outbox_has now "unit_dispatch" name runner.dispatch_topic env none d2' "unit_dispatch"
              name
            ∙ ground (arith, eq_refl name);
      })

  persist_units-stores :
      (n : ℕ) (units : List ExecutionUnit) (db : Db)
      → (store_all n units db).0 ≡ ok tt
      → All (λ u. IsPlanned run.run_id u.unit_key (store_all n units db).1) units
  unfolding persist_units
  persist_units-stores n [] db h = tt
  persist_units-stores n (u ∷ us) db h =
      let (id, d, e, h', a) = bind-inv (store n u) (λ _. store_all (suc n) us) db tt h in
      let first : IsPlanned run.run_id u.unit_key d =
        subst (IsPlanned run.run_id u.unit_key) (ap (λ r. r.1) e)
          (persist_unit-stores n u db id (ap (λ r. r.0) e)) in
      subst (λ x. All (λ v. IsPlanned run.run_id v.unit_key x) (u ∷ us)) (sym a)
        (
          IsPlanned-Keeps run.run_id u.unit_key d (store_all (suc n) us d).1
              (persist_units-Keeps (suc n) us d) first,
          persist_units-stores (suc n) us d h',
        )

  abbrev finish : Tx ℕ
  finish = mark_running sha256 digest runner now stamp run generation

  abbrev write : List ExecutionUnit → Tx ℕ
  write units = store_all 0 units >> finish

  finish-Keeps : Steps Keeps finish
  unfolding mark_running
  finish-Keeps db = record { plans = λ r k h. h; rows = λ r k h. h; messages = λ n k h. h }

  write-stores :
      (units : List ExecutionUnit) (db : Db) (changed : ℕ)
      → (write units db).0 ≡ ok changed
      → All (λ u. IsPlanned run.run_id u.unit_key (write units db).1) units
  write-stores units db changed h =
      let (_, d, e, _, last) = bind-inv (store_all 0 units) (λ _. finish) db changed h in
      let stored : All (λ u. IsPlanned run.run_id u.unit_key d) units =
        subst (λ x. All (λ u. IsPlanned run.run_id u.unit_key x) units) (ap (λ r. r.1) e)
          (persist_units-stores 0 units db (ap (λ r. r.0) e)) in
      subst (λ x. All (λ u. IsPlanned run.run_id u.unit_key x) units) (sym last)
        (All-implies (λ u. IsPlanned run.run_id u.unit_key d)
          (λ u. IsPlanned run.run_id u.unit_key (finish d).1)
          (λ u p. IsPlanned-Keeps run.run_id u.unit_key d (finish d).1 (finish-Keeps d) p) units
          stored)

  abbrev store_plan : List ExecutionUnit → Tx (Unit {0})
  store_plan = persist sha256 digest runner now stamp run generation

  abbrev report : ℕ → Tx (Unit {0})
  report changed = raise_if (nat_eq changed 0) not_plannable

  persist-commits :
      (units : List ExecutionUnit) (db : Db) (changed : ℕ)
      → (write units db).0 ≡ ok changed
      → store_plan units db ≡ report changed (write units db).1
  unfolding persist
  persist-commits units db changed h =
      let ran : write units db ≡ (ok changed, (write units db).1) =
        ap (λ x. (x, (write units db).1)) h in
      bind-ok (transaction (write units)) report db changed (write units db).1 (
        transaction-ok (write units) (λ _. (ok changed, (write units db).1)) db ran (changed, refl))

  persist-aborts :
      (units : List ExecutionUnit) (db : Db) (e : Error)
      → (write units db).0 ≡ err e
      → store_plan units db ≡ (err e, db)
  unfolding persist
  persist-aborts units db e h =
      bind-err (transaction (write units)) report db e db (transaction-err (write units) db e h)

  insert-clash :
      (row : PlanRow) (db : Db)
      → exists_where (clashes row) db.plan_units ≡ true
      → insert_plan_row row db ≡ (err unique_violation, db)
  unfolding insert_plan_row
  insert-clash row db taken = rw taken refl

  -- A first unit whose plan row is taken ends the storing.
  pub persist-clash :
      (u : ExecutionUnit) (us : List ExecutionUnit) (db : Db)
      → exists_where (clashes (plan_row digest run.run_id generation 0 u)) db.plan_units ≡ true
      → persist sha256 digest runner now stamp run generation (u ∷ us) db
        ≡ (err unique_violation, db)
  unfolding persist_units persist_unit
  persist-clash u us db taken =
      let row = plan_row digest run.run_id generation 0 u in
      let first : store 0 u db ≡ (err unique_violation, db) =
        bind-err (insert_plan_row row) (λ _. insert_ready run.run_id u.unit_key >> announce u) db
          unique_violation db (insert-clash row db taken) in
      let all : store_all 0 (u ∷ us) db ≡ (err unique_violation, db) =
        bind-err (store 0 u) (λ _. store_all 1 us) db unique_violation db first in
      persist-aborts (u ∷ us) db unique_violation
        (ap (λ r. r.0) (bind-err (store_all 0 (u ∷ us)) (λ _. finish) db unique_violation db all))

  -- Storing a plan is all or nothing: either every unit of it has its plan row, its own row and its
  -- dispatch message, and the call returns or reports that the run was not plannable; or the
  -- call raises and the database is as it was.
  pub persist_whole :
      (units : List ExecutionUnit) (db : Db)
      → let (answer, after) = persist sha256 digest runner now stamp run generation units db in
        (All (λ u. IsPlanned run.run_id u.unit_key after) units
          × ((answer ≡ ok tt) ⊎ (answer ≡ err not_plannable)))
        ⊎ ((e : Error) × (answer ≡ err e) × (after ≡ db))
  persist_whole units db = elim (Result-cases (write units db).0) [
    | inl (changed, h) ↦
        let run_eq = persist-commits units db changed h in
        inl (
          subst (λ x. All (λ u. IsPlanned run.run_id u.unit_key x) units)
              (sym (ap (λ r. r.1) run_eq)) (write-stores units db changed h),
          elim (Bool-cases (nat_eq changed 0)) [
            | inl none_changed ↦ inr (ap (λ r. r.0) run_eq ∙ rw none_changed refl)
            | inr some_changed ↦ inl (ap (λ r. r.0) run_eq ∙ rw some_changed refl)
          ],
        )
    | inr (e, h) ↦
        let run_eq = persist-aborts units db e h in
        inr (e, ap (λ r. r.0) run_eq, ap (λ r. r.1) run_eq)
  ]
