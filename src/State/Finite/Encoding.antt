-- ===== src/State/Finite/Encoding.antt =====
-- What `complete_attempt` of src/distributed_runtime/state/finite.py stores of a result and an error.
use ptf.Prelude.{none, ◌&&◌, ℕ, ◌≡◌, true, false, Option, some, arith, if◌then◌else◌}
use ptf.Core.Enums.{ExecutionStatus}
use ptf.Core.Json.{JsonValue, is_finite}
use ptf.Core.Errors.{ok, err, Error}
use ptf.State.Db.{UnitRow}
use ptf.State.Finite.Runs.{not_json}
use ptf.State.Finite.Attempt.{stale_claim, nullable}

-- a value in a nullable column: a JSON null is stored as NULL
abbrev pub column_of : JsonValue → Option JsonValue
column_of JsonValue.null = none
column_of v = some v

pub nullable-finite : (v : JsonValue) → is_finite v ≡ true → nullable v ≡ ok (column_of v)
unfolding nullable
nullable-finite v finite = ground arith

pub nullable-not_finite : (v : JsonValue) → is_finite v ≡ false → nullable v ≡ err not_json
unfolding nullable is_finite
nullable-not_finite v other = ground arith

-- the row of a unit once an attempt of it was completed: it has the status of the outcome and the
-- time of the retry, neither owner nor expiry, and the new result and error where they are given
abbrev pub completed_row :
    ExecutionStatus → Option JsonValue → Option JsonValue → Option ℕ → UnitRow → UnitRow
completed_row status result error retry_at u = record {
  run_id = u.run_id;
  unit_key = u.unit_key;
  status = status;
  attempt_count = u.attempt_count;
  next_attempt_at = retry_at;
  claimed_by = none;
  claim_expires_at = none;
  claim_token = u.claim_token;
  result = elim result [ none ↦ u.result | some v ↦ some v ];
  last_error = elim error [ none ↦ u.last_error | some v ↦ some v ];
}

-- the error of a completion under a token that is not the unit's
abbrev pub refusal : JsonValue → JsonValue → Error
refusal result error = if is_finite error && is_finite result then stale_claim else not_json
