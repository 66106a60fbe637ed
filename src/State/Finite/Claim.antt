-- ===== src/State/Finite/Claim.antt =====
-- Claims: `claim_unit` and `claim_units` of state/finite.py.
use ptf.Prelude.{
  ℕ, ◌+◌, String, Bool, true, false, ◌==◌, ◌&&◌, ◌||◌, Option, none, some, List, [], ◌∷◌, take, ltb,
  leb, nat_eq, not, is_some,
}
use ptf.Prelude.Table.{find_where, update_where, exists_where, select_where, order_by}
use ptf.Core.Enums.{ExecutionStatus, is_claimable}
use ptf.Finite.Unit.{ExecutionUnit}
use ptf.State.Db.{Db, PlanRow, RunRow, UnitRow, seconds}
use ptf.State.Tx.{Tx, pure, transaction, ◌>>=◌}
use ptf.State.Finite.Runs.{has_run_id}
use ptf.State.Finite.Plan.{has_key, latest_plan, load_unit}

-- `class ClaimedUnit`
pub record ClaimedUnit : Type 0 where
  pub run_id : String
  pub unit_key : String
  pub unit : ExecutionUnit
  pub attempt : ℕ
  pub claim_token : ℕ
  pub claim_expires_at : ℕ

-- `t IS NULL OR t <= now()`
abbrev pub reached : ℕ → Option ℕ → Bool
reached now none = true
reached now (some t) = leb t now

-- `t IS NULL OR t < now()`
abbrev pub lapsed : ℕ → Option ℕ → Bool
lapsed now none = true
lapsed now (some t) = ltb t now

-- the conditions on the row itself
abbrev pub is_due : ℕ → UnitRow → Bool
is_due now u =
    is_claimable u.status && (reached now u.next_attempt_at && lapsed now u.claim_expires_at)

-- the timeout that the join with `finite_plan_units` brings, if the unit is planned
unfoldable pub planned_timeout : List PlanRow → UnitRow → Option ℕ
planned_timeout plans u = elim (latest_plan u.run_id u.unit_key plans) [
  | none ↦ none
  | some p ↦ some p.unit.timeout_seconds
]

abbrev timeout_or_zero : Option ℕ → ℕ
timeout_or_zero none = 0
timeout_or_zero (some t) = t

-- `SET status = 'running', ...`
abbrev pub claim_row : List PlanRow → ℕ → String → ℕ → UnitRow → UnitRow
claim_row plans now owner grace u = record u {
  status = ExecutionStatus.running;
  claimed_by = some owner;
  claim_token = u.claim_token + 1;
  claim_expires_at = some (now + seconds (timeout_or_zero (planned_timeout plans u) + grace));
  attempt_count = u.attempt_count + 1;
  next_attempt_at = none;
}

-- what `RETURNING` and `_load_unit` give
abbrev pub claimed_unit : UnitRow → ExecutionUnit → ClaimedUnit
claimed_unit u unit = record {
  run_id = u.run_id;
  unit_key = u.unit_key;
  unit = unit;
  attempt = u.attempt_count;
  claim_token = u.claim_token;
  claim_expires_at = expiry u.claim_expires_at;
}
  where
    expiry : Option ℕ → ℕ
    expiry none = 0
    expiry (some t) = t

-- the `due` rows of `claim_unit`: at most one, by the primary key
abbrev pub is_target : List PlanRow → ℕ → String → String → UnitRow → Bool
is_target plans now run key u =
    has_key run key u && (is_due now u && is_some (planned_timeout plans u))

-- the statement of `claim_unit`, with the row that it returns
unfoldable pub claim_one : ℕ → String → String → String → ℕ → Tx (Option UnitRow)
claim_one now owner run key grace db =
    let target = is_target db.plan_units now run key in
    let claim = claim_row db.plan_units now owner grace in
    pure (elim (find_where target db.units) [ none ↦ none | some u ↦ some (claim u) ])
      (record db { units = update_where target claim db.units })

abbrev load_claimed : Option UnitRow → Tx (Option ClaimedUnit)
load_claimed none = pure none
load_claimed (some u) = do unit ← load_unit u.run_id u.unit_key; pure (some (claimed_unit u unit))

unfoldable pub claim_unit : ℕ → String → String → String → ℕ → Tx (Option ClaimedUnit)
unfolding claim_one
claim_unit now owner run key grace = do
  row ← transaction (claim_one now owner run key grace)
  load_claimed row

-- `$4::text IS NULL OR r.execution_revision = $4`, and the join with `finite_runs`
unfoldable pub meets_revision : List RunRow → Option String → UnitRow → Bool
meets_revision runs required u = elim (find_where (has_run_id u.run_id) runs) [
  | none ↦ false
  | some r ↦ elim required [ none ↦ true | some rev ↦ r.execution_revision == rev ]
]

-- `ORDER BY next_attempt_at NULLS FIRST, unit_key`
abbrev pub due_before : (String → String → Bool) → UnitRow → UnitRow → Bool
due_before collation a b = elim a.next_attempt_at [
  | none ↦ elim b.next_attempt_at [ none ↦ collation a.unit_key b.unit_key | some t ↦ true ]
  | some s ↦ elim b.next_attempt_at [
    | none ↦ false
    | some t ↦ ltb s t || (nat_eq s t && collation a.unit_key b.unit_key)
  ]
]

-- the `due` rows of `claim_units`; `locked` tells the rows that other transactions hold, which
-- `SKIP LOCKED` passes over
unfoldable pub is_available : Db → ℕ → Option String → (UnitRow → Bool) → UnitRow → Bool
is_available db now required locked u =
    (is_due now u && is_some (planned_timeout db.plan_units u))
    && (meets_revision db.runs required u && not (locked u))

unfoldable pub due_units :
    (String → String → Bool) → Db → ℕ → ℕ → Option String → (UnitRow → Bool) → List UnitRow
unfolding is_available
due_units collation db now limit required locked =
    take limit (
      order_by (due_before collation) (select_where (is_available db now required locked) db.units))

-- `u.run_id = due.run_id AND u.unit_key = due.unit_key` for some due row
abbrev pub is_among : List UnitRow → UnitRow → Bool
is_among due u = exists_where (λ d. has_key d.run_id d.unit_key u) due

-- the statement of `claim_units`, with the rows that it returns
unfoldable pub claim_due :
    (String → String → Bool)
    → ℕ
    → String
    → ℕ
    → ℕ
    → Option String
    → (UnitRow → Bool)
    → Tx (List UnitRow)
unfolding due_units
claim_due collation now owner limit grace required locked db =
    let due = due_units collation db now limit required locked in
    let claim = claim_row db.plan_units now owner grace in
    let units = update_where (is_among due) claim db.units in
    pure (select_where (is_among due) units) (record db { units = units })

unfoldable pub load_all_claimed : List UnitRow → Tx (List ClaimedUnit)
load_all_claimed [] = pure []
load_all_claimed (u ∷ us) = do
  unit ← load_unit u.run_id u.unit_key
  rest ← load_all_claimed us
  pure (claimed_unit u unit ∷ rest)

unfoldable pub claim_units :
    (String → String → Bool)
    → ℕ
    → String
    → ℕ
    → ℕ
    → Option String
    → (UnitRow → Bool)
    → Tx (List ClaimedUnit)
unfolding claim_due load_all_claimed
claim_units collation now owner limit grace required locked = do
  rows ← transaction (claim_due collation now owner limit grace required locked)
  load_all_claimed rows
