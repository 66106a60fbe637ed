-- ===== src/Control/Intents.antt =====
-- The inserts of a plan and of its dispatch messages.
use ptf.Prelude.{
  ℕ, ◌≡◌, refl, ap, ◌∙◌, sym, String, true, ◌==◌, ◌||◌, Option, arith, ◌&&◌, subst, inl, inr,
  Bool-cases, eq_refl, eq_iff,
}
use ptf.Prelude.Table.{exists_where, exists-append, exists-update, find_of_exists}
use ptf.Core.Errors.{ok}
use ptf.Core.Envelope.{VersionedEnvelope}
use ptf.State.Db.{Db, PlanRow}
use ptf.State.Steps.{Steps}
use ptf.State.Finite.Runs.{has_run_id}
use ptf.State.Finite.Plan.{plans_key, has_key, clashes, ready_unit, insert_plan_row, insert_ready}
use ptf.State.Outbox.{has_dedup, insert_outbox, raise_token, pending_row}
use ptf.State.Outbox.Dedup.{insert_outbox-fresh, insert_outbox-taken}
use ptf.Control.Planner.{dispatch_key}

-- The unit is in the plan of the run, has a row of its own, and its dispatch is in the outbox.
pub record IsPlanned (run key : String) (db : Db) : Type 0 where
  pub planned : exists_where (plans_key run key) db.plan_units ≡ true
  pub materialized : exists_where (has_key run key) db.units ≡ true
  pub announced : exists_where (has_dedup "unit_dispatch" (dispatch_key run key)) db.outbox ≡ true

-- Nothing that was planned, materialized or announced is lost.
pub record Keeps (a b : Db) : Type 0 where
  pub plans :
      (run key : String)
      → exists_where (plans_key run key) a.plan_units ≡ true
      → exists_where (plans_key run key) b.plan_units ≡ true
  pub rows :
      (run key : String)
      → exists_where (has_key run key) a.units ≡ true
      → exists_where (has_key run key) b.units ≡ true
  pub messages :
      (kind key : String)
      → exists_where (has_dedup kind key) a.outbox ≡ true
      → exists_where (has_dedup kind key) b.outbox ≡ true

pub same_rows : (db : Db) → Keeps db db
same_rows db = record { plans = λ r k h. h; rows = λ r k h. h; messages = λ n k h. h }

pub chain_rows : (a b c : Db) → Keeps a b → Keeps b c → Keeps a c
chain_rows a b c h g = record {
  plans = λ r k e. g.plans r k (h.plans r k e);
  rows = λ r k e. g.rows r k (h.rows r k e);
  messages = λ n k e. g.messages n k (h.messages n k e);
}

pub IsPlanned-Keeps :
    (run key : String) (a b : Db) → Keeps a b → IsPlanned run key a → IsPlanned run key b
IsPlanned-Keeps run key a b h p = record {
  planned = h.plans run key p.planned;
  materialized = h.rows run key p.materialized;
  announced = h.messages "unit_dispatch" (dispatch_key run key) p.announced;
}

pub insert_plan_row-Keeps : (row : PlanRow) → Steps Keeps (insert_plan_row row)
unfolding insert_plan_row
insert_plan_row-Keeps row db = elim (Bool-cases (exists_where (clashes row) db.plan_units)) [
  | inl taken ↦ rw taken (same_rows db)
  | inr free ↦ elim (Bool-cases (exists_where (has_run_id row.run_id) db.runs)) [
    | inl parent ↦
        rw (free, parent)
          (record {
            plans = λ r k h. ground (arith, exists-append (plans_key r k) db.plan_units row, h);
            rows = λ r k h. h;
            messages = λ n k h. h;
          })
    | inr orphan ↦ rw (free, orphan) (same_rows db)
  ]
]

pub insert_plan_row-stores :
    (row : PlanRow) (db : Db)
    → (insert_plan_row row db).0 ≡ ok tt
    → exists_where (plans_key row.run_id row.unit_key) (insert_plan_row row db).1.plan_units ≡ true
unfolding insert_plan_row
insert_plan_row-stores row db h = ground (
  arith,
  exists-append (plans_key row.run_id row.unit_key) db.plan_units row,
  eq_refl row.run_id,
  eq_refl row.unit_key,
)

pub insert_ready-Keeps : (run key : String) → Steps Keeps (insert_ready run key)
unfolding insert_ready
insert_ready-Keeps run key db = elim (Bool-cases (exists_where (has_key run key) db.units)) [
  | inl there ↦ rw there (same_rows db)
  | inr free ↦ elim (Bool-cases (exists_where (has_run_id run) db.runs)) [
    | inl parent ↦
        rw (free, parent)
          (record {
            plans = λ r k h. h;
            rows = λ r k h.
                ground (arith, exists-append (has_key r k) db.units (ready_unit run key), h);
            messages = λ n k h. h;
          })
    | inr orphan ↦ rw (free, orphan) (same_rows db)
  ]
]

pub insert_ready-stores :
    (run key : String) (db : Db)
    → (insert_ready run key db).0 ≡ ok tt
    → exists_where (has_key run key) (insert_ready run key db).1.units ≡ true
unfolding insert_ready
insert_ready-stores run key db h =
    ground (
      arith,
      exists-append (has_key run key) db.units (ready_unit run key),
      eq_refl run,
      eq_refl key,
    )

module _ (now : ℕ) (kind key dest : String) (env : VersionedEnvelope) (token : Option ℕ)
    (db : Db) where
  known :
      (n k : String)
      → exists_where (has_dedup kind key) db.outbox ≡ true
      → exists_where (has_dedup n k) db.outbox
        ≡ (exists_where (has_dedup n k) db.outbox || (kind == n && key == k))
  known n k taken = elim (Bool-cases (kind == n && key == k)) [
    | inl same ↦
        let there : exists_where (has_dedup n k) db.outbox ≡ true =
          rw
            (
              sym ((eq_iff kind n).0 (ground (arith, same))),
              sym ((eq_iff key k).0 (ground (arith, same))),
            )
            taken in
        rw there refl
    | inr other ↦ ground (arith, other)
  ]

  -- the outbox afterwards, for any key
  pub outbox_has :
      (n k : String)
      → exists_where (has_dedup n k) (insert_outbox now kind key dest env token db).1.outbox
        ≡ (exists_where (has_dedup n k) db.outbox || (kind == n && key == k))
  outbox_has n k = elim (Bool-cases (exists_where (has_dedup kind key) db.outbox)) [
    | inl taken ↦
        let (r, found) = find_of_exists (has_dedup kind key) db.outbox taken in
        let (_, _, rows) = insert_outbox-taken now kind key dest env token db r found in
        ap (exists_where (has_dedup n k)) rows
        ∙ (exists-update (has_dedup kind key) (has_dedup n k) (raise_token token) db.outbox
              (λ x. refl)
            ∙ known n k taken)
    | inr fresh ↦
        ap (λ r. exists_where (has_dedup n k) r.1.outbox)
          (insert_outbox-fresh now kind key dest env token db fresh)
        ∙ exists-append (has_dedup n k) db.outbox
            (pending_row db.next_outbox_id now kind key dest env token)
  ]

  same :
      ((insert_outbox now kind key dest env token db).1.plan_units ≡ db.plan_units)
      × ((insert_outbox now kind key dest env token db).1.units ≡ db.units)
  unfolding insert_outbox
  same = (ground arith, ground arith)

  pub insert_outbox-Keeps : Keeps db (insert_outbox now kind key dest env token db).1
  insert_outbox-Keeps = record {
    plans = λ r k h. subst (λ rows. exists_where (plans_key r k) rows ≡ true) (sym same.0) h;
    rows = λ r k h. subst (λ rows. exists_where (has_key r k) rows ≡ true) (sym same.1) h;
    messages = λ n k h. outbox_has n k ∙ rw h refl;
  }
