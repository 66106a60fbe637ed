-- ===== src/Control/Due.antt =====
-- What the query of due retries of src/distributed_runtime/control/dispatcher.py finds.
use ptf.Prelude.{
  ℕ, suc, ◌≡◌, ◌≤◌, ◌&&◌, Bool, Bool-cases, inl, inr, Option, none, some, nat_eq, nat_eq_iff,
  eq_iff, take-all, ap, ◌∙◌, subst, String, true, List, [], ◌∷◌, arith, All, length,
}
use ptf.Prelude.Table.{
  exists_where, find_where, count_where, select_where, order_by, length-order_by, length-select,
  exists-order_by, exists-select,
}
use ptf.State.Finite.Plan.{has_key, latest_plan}
use ptf.State.Finite.Runs.{has_run_id}
use ptf.State.Db.{Db, UnitRow, PlanRow, RunRow}
use ptf.State.Outbox.{has_dedup}
use ptf.Control.Dispatcher.{
  DueRetry, is_due_retry, due_earlier, joined, join_rows, due_retries, retry_key,
}

-- the row of the same unit, after as many attempts
abbrev same_unit : UnitRow → UnitRow → Bool
same_unit u x = has_key u.run_id u.unit_key x && nat_eq x.attempt_count u.attempt_count

module _ (decimal : ℕ → String) where
  -- The outbox holds the wake-up of the retry of the unit.
  abbrev pub Announced : Db → UnitRow → Type 0
  Announced db u = exists_where (has_dedup "unit_dispatch" (retry_key decimal u)) db.outbox ≡ true

  -- a row that the joins keep is announced with them
  pub join_rows-Announced :
      (db after : Db) (u : UnitRow) (p : PlanRow) (r : RunRow) (us : List UnitRow)
      → latest_plan u.run_id u.unit_key db.plan_units ≡ some p
      → find_where (has_run_id u.run_id) db.runs ≡ some r
      → exists_where (same_unit u) us ≡ true
      → All (λ d. Announced after d.unit) (join_rows db us)
      → Announced after u
  unfolding join_rows exists_where
  join_rows-Announced db after u p r [] planned of_run there all = absurd (cc)
  join_rows-Announced db after u p r (x ∷ us) planned of_run there all =
      elim (Bool-cases (same_unit u x)) [
        | inl same ↦ head same all
        | inr other ↦
            join_rows-Announced db after u p r us planned of_run (ground (arith, there, other))
              (tail all)
      ]
    where
      head :
          same_unit u x ≡ true
          → All (λ d. Announced after d.unit) (join_rows db (x ∷ us))
          → Announced after u
      head same all =
          let er : x.run_id ≡ u.run_id = ground (arith, same, eq_iff x.run_id u.run_id) in
          let ek : x.unit_key ≡ u.unit_key = ground (arith, same, eq_iff x.unit_key u.unit_key) in
          let en : x.attempt_count ≡ u.attempt_count =
            ground (arith, same, nat_eq_iff x.attempt_count u.attempt_count) in
          let planned_x : latest_plan x.run_id x.unit_key db.plan_units ≡ some p =
            rw (er, ek) planned in
          let of_run_x : find_where (has_run_id x.run_id) db.runs ≡ some r = rw er of_run in
          let both : All (λ d. Announced after d.unit)
              (joined x (some p) (some r) (join_rows db us)) =
            subst (λ o. All (λ d. Announced after d.unit) (joined x (some p) o (join_rows db us)))
              of_run_x
              (subst
                (λ o.
                  All (λ d. Announced after d.unit)
                    (joined x o (find_where (has_run_id x.run_id) db.runs) (join_rows db us)))
                planned_x all) in
          let key : retry_key decimal x ≡ retry_key decimal u = cc in
          subst (λ k. exists_where (has_dedup "unit_dispatch" k) after.outbox ≡ true) key both.0

      rest :
          (o : Option PlanRow) (q : Option RunRow)
          → All (λ d. Announced after d.unit) (joined x o q (join_rows db us))
          → All (λ d. Announced after d.unit) (join_rows db us)
      rest none q all = all
      rest (some a) none all = all
      rest (some a) (some b) all = all.1

      tail :
          All (λ d. Announced after d.unit) (join_rows db (x ∷ us))
          → All (λ d. Announced after d.unit) (join_rows db us)
      tail all =
          rest (latest_plan x.run_id x.unit_key db.plan_units)
            (find_where (has_run_id x.run_id) db.runs) all

length-joined :
    (x : UnitRow) (o : Option PlanRow) (q : Option RunRow) (rs : List DueRetry)
    → length (joined x o q rs) ≤ suc (length rs)
length-joined x none q rs = omega arith
length-joined x (some a) none rs = omega arith
length-joined x (some a) (some b) rs = omega arith

length-join_rows : (db : Db) (us : List UnitRow) → length (join_rows db us) ≤ length us
unfolding join_rows
length-join_rows db [] = omega arith
length-join_rows db (x ∷ us) = omega (
  arith,
  length-joined x (latest_plan x.run_id x.unit_key db.plan_units)
      (find_where (has_run_id x.run_id) db.runs) (join_rows db us),
  length-join_rows db us,
)

module _ (now : ℕ) where
  -- the rows of due units, the earliest first
  abbrev pub due_units : Db → List UnitRow
  due_units db = order_by due_earlier (select_where (is_due_retry now) db.units)

  -- the limit passes over none of at most 500
  pub due_retries-few :
      (db : Db)
      → count_where (is_due_retry now) db.units ≤ 500
      → due_retries now db ≡ join_rows db (due_units db)
  unfolding due_retries
  due_retries-few db few = take-all 500 (join_rows db (due_units db)) (
      omega (
        arith,
        few,
        length-join_rows db (due_units db),
        length-order_by due_earlier (select_where (is_due_retry now) db.units),
        length-select (is_due_retry now) db.units,
      ))

  pub due_units-has :
      (db : Db) (u : UnitRow)
      → find_where (has_key u.run_id u.unit_key) db.units ≡ some u
      → is_due_retry now u ≡ true
      → exists_where (same_unit u) (due_units db) ≡ true
  unfolding find_where exists_where
  due_units-has db u found due =
      exists-order_by due_earlier (same_unit u) (select_where (is_due_retry now) db.units)
      ∙ (exists-select (is_due_retry now) (same_unit u) db.units ∙ exists_of_row db.units found)
    where
      exists_of_row :
          (us : List UnitRow)
          → find_where (has_key u.run_id u.unit_key) us ≡ some u
          → exists_where (λ x. is_due_retry now x && same_unit u x) us ≡ true
      exists_of_row [] h = absurd (cc)
      exists_of_row (x ∷ us) h = elim (Bool-cases (has_key u.run_id u.unit_key x)) [
        | inl here ↦
            let same : x ≡ u = ground (arith, h, here) in
            let due_x : is_due_retry now x ≡ true = rw same due in
            ground (
              arith,
              due_x,
              here,
              ap (λ (y : UnitRow). y.attempt_count) same,
              nat_eq_iff x.attempt_count u.attempt_count,
            )
        | inr other ↦ ground (arith, exists_of_row us (ground (arith, h, other)))
      ]
