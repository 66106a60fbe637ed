-- ===== src/Core/Failure.antt =====
-- The taxonomy of src/distributed_runtime/core/errors.py, as the exceptions that a handler raises.
-- Details are JSON already; `show_seconds` is `timedelta.total_seconds`, printed as JSON.
use ptf.Prelude.{ℕ, String, Bool, true, false, ◌==◌, if◌then◌else◌, not, ltb}
use ptf.Core.Enums.{ErrorKind}
use ptf.Core.Json.{JsonValue, JsonFields}
use ptf.Core.Errors.{Result, ok, require, value_error, ◌>>◌}

-- the subclasses of `RuntimeContractError` but `RateLimitedExecutionError`, and itself
pub data ErrorClass : Type 0 where
  runtime_contract invalid_identifier invariant_violation planning_drift : ErrorClass
  cancelled_execution retryable_execution permanent_execution unsupported_version : ErrorClass

-- `rate_limited` carries its `retry_after` in microseconds; `unexpected` is any other exception, by
-- the name of its type and its text.
pub data Failure : Type 0 where
  contract : ErrorClass → String → JsonFields → Failure
  rate_limited : String → ℕ → JsonFields → Failure
  unexpected : String → String → Failure

-- the class variable `code`
unfoldable pub code : ErrorClass → String
code ErrorClass.runtime_contract = "runtime_contract_error"
code ErrorClass.invalid_identifier = "invalid_identifier"
code ErrorClass.invariant_violation = "invariant_violation"
code ErrorClass.planning_drift = "planning_drift"
code ErrorClass.cancelled_execution = "cancelled_execution"
code ErrorClass.retryable_execution = "retryable_execution"
code ErrorClass.permanent_execution = "permanent_execution"
code ErrorClass.unsupported_version = "unsupported_version"

-- the class variable `kind`
unfoldable pub kind : ErrorClass → ErrorKind
kind ErrorClass.runtime_contract = ErrorKind.invariant_violation
kind ErrorClass.invalid_identifier = ErrorKind.invalid_identifier
kind ErrorClass.invariant_violation = ErrorKind.invariant_violation
kind ErrorClass.planning_drift = ErrorKind.planning_drift
kind ErrorClass.cancelled_execution = ErrorKind.cancelled
kind ErrorClass.retryable_execution = ErrorKind.retryable_execution
kind ErrorClass.permanent_execution = ErrorKind.permanent_execution
kind ErrorClass.unsupported_version = ErrorKind.unsupported_version

-- `kind.value`
unfoldable pub kind_value : ErrorKind → String
kind_value ErrorKind.cancelled = "cancelled"
kind_value ErrorKind.invalid_identifier = "invalid_identifier"
kind_value ErrorKind.invariant_violation = "invariant_violation"
kind_value ErrorKind.planning_drift = "planning_drift"
kind_value ErrorKind.retryable_execution = "retryable_execution"
kind_value ErrorKind.permanent_execution = "permanent_execution"
kind_value ErrorKind.rate_limited = "rate_limited"
kind_value ErrorKind.unsupported_version = "unsupported_version"

-- the class variable `retryable`
unfoldable pub is_retryable : ErrorClass → Bool
is_retryable ErrorClass.retryable_execution = true
is_retryable _ = false

-- `RuntimeContractError(message, details=...)`
unfoldable pub contract_error : ErrorClass → String → JsonFields → Result Failure
contract_error cls message details = do
  require (not (message == "")) (value_error "error message must not be empty")
  ok (Failure.contract cls message details)

-- `fields[key] = value`
unfoldable pub set_field : String → JsonValue → JsonFields → JsonFields
set_field key value JsonFields.end = JsonFields.field key value JsonFields.end
set_field key value (JsonFields.field k v rest) =
    let rest' = set_field key value rest in
    if k == key then JsonFields.field k value rest else JsonFields.field k v rest'

-- `RateLimitedExecutionError(message, retry_after=..., details=...)`
unfoldable pub rate_limited_error : (ℕ → JsonValue) → String → ℕ → JsonFields → Result Failure
unfolding set_field
rate_limited_error show_seconds message retry_after details = do
  require (ltb 0 retry_after) (value_error "retry_after must be positive")
  require (not (message == "")) (value_error "error message must not be empty")
  ok (
      Failure.rate_limited message retry_after
        (set_field "retry_after_seconds" (show_seconds retry_after) details))

abbrev pub diagnostic : String → String → String → Bool → JsonFields → JsonValue
diagnostic c k message retryable details = JsonValue.object (
    JsonFields.field "code" (JsonValue.text c) (
      JsonFields.field "kind" (JsonValue.text k) (
        JsonFields.field "message" (JsonValue.text message) (
          JsonFields.field "retryable" (JsonValue.boolean retryable)
            (JsonFields.field "details" (JsonValue.object details) JsonFields.end)))))

-- `as_dict`
unfoldable pub as_dict : ErrorClass → String → JsonFields → JsonValue
unfolding code kind kind_value is_retryable
as_dict cls message details =
    diagnostic (code cls) (kind_value (kind cls)) message (is_retryable cls) details

-- `as_dict` of a `RateLimitedExecutionError`
abbrev pub rate_limited_dict : String → JsonFields → JsonValue
rate_limited_dict message details = diagnostic "rate_limited" "rate_limited" message true details
