-- ===== src/State/Finite/Attempt.antt =====
-- Results of attempts: `complete_attempt` and `dead_letter` of state/finite.py.
use ptf.Prelude.{
  ℕ, String, Bool, ◌==◌, ◌&&◌, ◌||◌, Option, none, some, List, [], ◌∷◌, ◌++◌, nat_eq, coalesce,
  if◌then◌else◌,
}
use ptf.Prelude.Table.{update_where, count_where, exists_where}
use ptf.Core.Enums.{ExecutionStatus}
use ptf.Core.Json.{JsonValue, is_finite}
use ptf.Core.Errors.{
  Result, ok, err, invariant_violation, value_error, foreign_key_violation, Error,
}
use ptf.State.Db.{UnitRow, AttemptRow}
use ptf.State.Tx.{Tx, pure, lift, query, transaction, or_raise, raise_if, ◌>>=◌, ◌>>◌}
use ptf.State.Finite.Runs.{not_json}
use ptf.State.Finite.Plan.{has_key}
use ptf.State.Finite.Claim.{ClaimedUnit}

-- the dictionary `final_status`
unfoldable pub final_status : String → Option ExecutionStatus
final_status outcome =
    if outcome == "succeeded"
    then some ExecutionStatus.succeeded
    else if outcome == "permanent"
    then some ExecutionStatus.failed
    else if outcome == "retryable"
    then some ExecutionStatus.retry_scheduled
    else if outcome == "rate_limited"
    then some ExecutionStatus.retry_scheduled
    else if outcome == "cancelled"
    then some ExecutionStatus.cancelled
    else none

-- the key of `finite_attempts`
abbrev pub same_attempt : AttemptRow → AttemptRow → Bool
same_attempt a b = (b.run_id == a.run_id && b.unit_key == a.unit_key) && nat_eq b.attempt a.attempt

-- `ON CONFLICT (run_id, unit_key, attempt) DO NOTHING`
abbrev pub add_attempt : AttemptRow → List AttemptRow → List AttemptRow
add_attempt row rows = if exists_where (same_attempt row) rows then rows else rows ++ row ∷ []

-- `INSERT INTO finite_attempts`; a new row needs its unit.
unfoldable pub insert_attempt : AttemptRow → Tx (Unit {0})
insert_attempt row db =
    if exists_where (has_key row.run_id row.unit_key) db.units
      || exists_where (same_attempt row) db.attempts
    then (ok tt, record db { attempts = add_attempt row db.attempts })
    else (err foreign_key_violation, db)

-- `run_id = $1 AND unit_key = $2 AND claim_token = $3`
abbrev pub holds_token : ClaimedUnit → UnitRow → Bool
holds_token c u = has_key c.run_id c.unit_key u && nat_eq u.claim_token c.claim_token

-- `None if value is None else _canonical_json(value)`: the value of a nullable `jsonb` column
unfoldable pub nullable : JsonValue → Result (Option JsonValue)
unfolding is_finite
nullable JsonValue.null = ok none
nullable v = if is_finite v then ok (some v) else err not_json

abbrev pub complete_row :
    ExecutionStatus → Option JsonValue → Option JsonValue → Option ℕ → UnitRow → UnitRow
complete_row status result error retry_at u = record u {
  status = status;
  result = coalesce result u.result;
  last_error = coalesce error u.last_error;
  next_attempt_at = retry_at;
  claimed_by = none;
  claim_expires_at = none;
}

abbrev pub attempt_row : ClaimedUnit → String → String → Option JsonValue → AttemptRow
attempt_row c execution_id outcome error = record {
  run_id = c.run_id;
  unit_key = c.unit_key;
  attempt = c.attempt;
  execution_id = execution_id;
  outcome = outcome;
  error = error;
}

abbrev pub stale_claim : Error
stale_claim = invariant_violation "stale claim token: unit reclaimed by another worker"

-- `UPDATE finite_units SET ... WHERE ... claim_token = $3`, and the test of `changed`
unfoldable pub fenced_update : ClaimedUnit → (UnitRow → UnitRow) → Error → Tx (Unit {0})
fenced_update c write stale = do
  changed ← query (λ db. count_where (holds_token c) db.units)
  (λ db. pure tt (record db { units = update_where (holds_token c) write db.units }))
  raise_if (nat_eq changed 0) stale

-- the block of `complete_attempt` that one transaction runs
unfoldable pub record_attempt :
    ClaimedUnit
    → String
    → String
    → ExecutionStatus
    → JsonValue
    → JsonValue
    → Option ℕ
    → Tx (Unit {0})
unfolding nullable insert_attempt fenced_update
record_attempt c execution_id outcome status result error retry_at = do
  recorded ← lift (nullable error)
  insert_attempt (attempt_row c execution_id outcome recorded)
  stored ← lift (nullable result)
  last ← lift (nullable error)
  fenced_update c (complete_row status stored last retry_at) stale_claim

-- `complete_attempt`
unfoldable pub complete_attempt :
    ClaimedUnit → String → String → JsonValue → JsonValue → Option ℕ → Tx (Unit {0})
unfolding final_status record_attempt
complete_attempt c execution_id outcome result error retry_at = do
  status ← or_raise (final_status outcome) (value_error "unknown outcome")
  transaction (record_attempt c execution_id outcome status result error retry_at)

abbrev pub dead_letter_row : UnitRow → UnitRow
dead_letter_row u = record u { status = ExecutionStatus.dead_lettered }

abbrev pub stale_dead_letter : Error
stale_dead_letter = invariant_violation "stale claim token: cannot dead-letter"

-- `dead_letter`
unfoldable pub dead_letter : ClaimedUnit → Tx (Unit {0})
unfolding fenced_update
dead_letter c = fenced_update c dead_letter_row stale_dead_letter
