-- ===== src/State/Finite/Exclusion.antt =====
-- Claims of one unit.
use ptf.Prelude.{
  ℕ, ◌+◌, ◌≤◌, ◌≡◌, refl, sym, String, true, false, ◌&&◌, Option, none, some, List, arith, is_some,
  Bool-cases, Option-cases, inl, inr, ◌∙◌, ap, eq_iff,
}
use ptf.Prelude.Table.{
  find_where, update_where, count_where, update-none, find-update, find-and, find-and_none,
  count-and, count-update, find_satisfies,
}
use ptf.Core.Enums.{ExecutionStatus}
use ptf.Core.Errors.{ok, Result}
use ptf.State.Db.{Db, UnitRow, PlanRow, seconds}
use ptf.State.Finite.Plan.{has_key, latest_plan, load_unit}
use ptf.State.Finite.Claim.{ClaimedUnit, is_due, is_target, planned_timeout, claim_row, claim_unit}

-- `PRIMARY KEY (run_id, unit_key)`
abbrev pub IsKeyed : List UnitRow → Type 0
IsKeyed units = (run key : String) → count_where (has_key run key) units ≤ 1

pub find-has_key :
    (run key : String) (units : List UnitRow) (u : UnitRow)
    → find_where (has_key run key) units ≡ some u
    → (u.run_id ≡ run) × (u.unit_key ≡ key)
find-has_key run key units u h =
    ground (
      arith,
      find_satisfies (has_key run key) units u h,
      eq_iff u.run_id run,
      eq_iff u.unit_key key,
    )

-- the claim of a unit that is due
abbrev pub claimed : ℕ → String → ℕ → UnitRow → PlanRow → ClaimedUnit
claimed now owner grace u p = record {
  run_id = u.run_id;
  unit_key = u.unit_key;
  unit = p.unit;
  attempt = u.attempt_count + 1;
  claim_token = u.claim_token + 1;
  claim_expires_at = now + seconds (p.unit.timeout_seconds + grace);
}

-- the row of a claimed unit: running, under the next token and attempt number, held by the claimer
-- until the timeout of its plan and the grace are over, and without a time of retry
abbrev pub running_row : ℕ → String → ℕ → UnitRow → PlanRow → UnitRow
running_row now owner grace u p = record {
  run_id = u.run_id;
  unit_key = u.unit_key;
  status = ExecutionStatus.running;
  attempt_count = u.attempt_count + 1;
  next_attempt_at = none;
  claimed_by = some owner;
  claim_token = u.claim_token + 1;
  claim_expires_at = some (now + seconds (p.unit.timeout_seconds + grace));
  result = u.result;
  last_error = u.last_error;
}

planned_timeout_lem :
    (run key : String) (plans : List PlanRow) (units : List UnitRow) (u : UnitRow) (p : PlanRow)
    → find_where (has_key run key) units ≡ some u
    → latest_plan run key plans ≡ some p
    → (latest_plan u.run_id u.unit_key plans ≡ some p)
      × (planned_timeout plans u ≡ some p.unit.timeout_seconds)
unfolding planned_timeout
planned_timeout_lem run key plans units u p found planned =
    let (er, ek) = find-has_key run key units u found in
    let same : latest_plan u.run_id u.unit_key plans ≡ some p = rw (er, ek) planned in
    (same, rw (same, planned_timeout))

module _ (now : ℕ) (owner run key : String) (grace : ℕ) (db : Db) (u : UnitRow)
    (keyed : IsKeyed db.units) (found : find_where (has_key run key) db.units ≡ some u) where
  -- A unit that is not due is left alone, whoever asks.
  pub claim_unit-refused :
      is_due now u ≡ false → claim_unit now owner run key grace db ≡ (ok none, db)
  unfolding claim_unit
  claim_unit-refused early = ground (
    arith,
    find-and (has_key run key) (λ x. is_due now x && is_some (planned_timeout db.plan_units x))
        db.units u (keyed run key) found,
    count-and (has_key run key) (λ x. is_due now x && is_some (planned_timeout db.plan_units x))
        db.units u (keyed run key) found,
    update-none (is_target db.plan_units now run key) (claim_row db.plan_units now owner grace)
        db.units,
  )

  -- A planned unit that is due goes to the claimer, under the next token and attempt number: the
  -- answer is its handle, and its row is afterwards running, claimed by the claimer until the timeout
  -- of its plan and the grace are over, without a time of retry, its result and last error unchanged.
  pub claim_unit-granted :
      (p : PlanRow)
      → latest_plan run key db.plan_units ≡ some p
      → is_due now u ≡ true
      → ((claim_unit now owner run key grace db).0 ≡ ok (some (claimed now owner grace u p)))
        × (find_where (has_key run key) (claim_unit now owner run key grace db).1.units
            ≡ some (running_row now owner grace u p))
  unfolding claim_unit load_unit
  claim_unit-granted p planned due =
      let due_and = λ (x : UnitRow). is_due now x && is_some (planned_timeout db.plan_units x) in
      ground (
        arith,
        planned_timeout_lem run key db.plan_units db.units u p found planned,
        find-and (has_key run key) due_and db.units u (keyed run key) found,
        find-update (is_target db.plan_units now run key) (has_key run key)
            (claim_row db.plan_units now owner grace) db.units (λ x. refl),
        find_satisfies (has_key run key) db.units u found,
      )

-- What a claim writes: only unit rows, and those by one update.
pub claim_unit-db :
    (now : ℕ) (owner run key : String) (grace : ℕ) (db : Db)
    → (claim_unit now owner run key grace db).1 ≡ record db {
      units =
          update_where
            (is_target db.plan_units now run key)
            (claim_row db.plan_units now owner grace)
            db.units;
    }
unfolding claim_unit load_unit
claim_unit-db now owner run key grace db = ground arith

pub claim_unit-IsKeyed :
    (now : ℕ) (owner run key : String) (grace : ℕ) (db : Db)
    → IsKeyed db.units
    → IsKeyed (claim_unit now owner run key grace db).1.units
claim_unit-IsKeyed now owner run key grace db keyed r k =
    rw
      (
        claim_unit-db now owner run key grace db,
        count-update (is_target db.plan_units now run key) (has_key r k)
            (claim_row db.plan_units now owner grace) db.units (λ x e. refl),
      )
      (keyed r k)

claim_unit-missing :
    (now : ℕ) (owner run key : String) (grace : ℕ) (db : Db)
    → find_where (has_key run key) db.units ≡ none
    → (claim_unit now owner run key grace db).0 ≡ ok none
unfolding claim_unit
claim_unit-missing now owner run key grace db missing = ground (
  arith,
  find-and_none (has_key run key) (λ x. is_due now x && is_some (planned_timeout db.plan_units x))
      db.units missing,
)

claim_unit-unplanned :
    (now : ℕ) (owner run key : String) (grace : ℕ) (db : Db) (u : UnitRow)
    → IsKeyed db.units
    → find_where (has_key run key) db.units ≡ some u
    → latest_plan run key db.plan_units ≡ none
    → (claim_unit now owner run key grace db).0 ≡ ok none
unfolding claim_unit planned_timeout
claim_unit-unplanned now owner run key grace db u keyed found unplanned =
    let (er, ek) = find-has_key run key db.units u found in
    let same : latest_plan u.run_id u.unit_key db.plan_units ≡ none = rw (er, ek) unplanned in
    ground (
      arith,
      same,
      find-and (has_key run key) (λ x. is_due now x && is_some (planned_timeout db.plan_units x))
          db.units u (keyed run key) found,
    )

-- The unit behind a claim that succeeded: it was planned and due.
pub record Got (now : ℕ) (owner run key : String) (grace : ℕ) (db : Db) (c : ClaimedUnit)
    : Type 0 where
  pub unit : UnitRow
  pub plan : PlanRow
  pub found : find_where (has_key run key) db.units ≡ some unit
  pub planned : latest_plan run key db.plan_units ≡ some plan
  pub due : is_due now unit ≡ true
  pub handle : c ≡ claimed now owner grace unit plan
  pub after :
      find_where (has_key run key) (claim_unit now owner run key grace db).1.units
      ≡ some (running_row now owner grace unit plan)

some_injective :
    {a b : ClaimedUnit} → ◌≡◌ {A = Result (Option ClaimedUnit)} (ok (some a)) (ok (some b)) → a ≡ b
some_injective h = cc

pub claim_unit-Got :
    (now : ℕ) (owner run key : String) (grace : ℕ) (db : Db) (c : ClaimedUnit)
    → IsKeyed db.units
    → (claim_unit now owner run key grace db).0 ≡ ok (some c)
    → Got now owner run key grace db c
claim_unit-Got now owner run key grace db c keyed got =
    elim (Option-cases (find_where (has_key run key) db.units)) [
      | inl missing ↦ absurd (cc (got, claim_unit-missing now owner run key grace db missing))
      | inr (u, found) ↦ elim (Bool-cases (is_due now u)) [
        | inl due ↦ elim (Option-cases (latest_plan run key db.plan_units)) [
          | inl unplanned ↦
              absurd
                (cc (got, claim_unit-unplanned now owner run key grace db u keyed found unplanned))
          | inr (p, planned) ↦
              let done =
                claim_unit-granted now owner run key grace db u keyed found p planned due in
              record {
                unit = u;
                plan = p;
                found = found;
                planned = planned;
                due = due;
                handle = some_injective (sym got ∙ done.0);
                after = done.1;
              }
        ]
        | inr early ↦ absurd (
            cc (
              got,
              ap (λ (x : Result (Option ClaimedUnit) × Db). x.0)
                  (claim_unit-refused now owner run key grace db u keyed found early),
            ))
      ]
    ]
