-- ===== src/Worker/Retry.antt =====
-- Retries: src/distributed_runtime/worker/retry.py, and `FinitePolicy` of core/config.py. Delays are
-- microseconds.
use ptf.Prelude.{ℕ, ◌-◌, ◌*◌, ◌+◌, ◌^◌, String, Bool, Option, none, some, leb, ltb, if◌then◌else◌}
use ptf.Core.Json.{JsonValue, JsonFields}
use ptf.Core.Errors.{Result, ok, require, configuration_error, ◌>>◌}
use ptf.Core.Failure.{ErrorClass, Failure, as_dict, rate_limited_dict, code}
use ptf.State.Db.{seconds}

-- `class FinitePolicy`
pub record FinitePolicy : Type 0 where
  pub timeout_seconds : ℕ
  pub max_timeout_seconds : ℕ
  pub max_attempts : ℕ
  pub retry_base_seconds : ℕ
  pub retry_cap_seconds : ℕ
  pub claim_grace_seconds : ℕ

abbrev pub default_policy : FinitePolicy
default_policy = record {
  timeout_seconds = 300;
  max_timeout_seconds = 3600;
  max_attempts = 5;
  retry_base_seconds = 5;
  retry_cap_seconds = 300;
  claim_grace_seconds = 120;
}

abbrev require_positive : ℕ → Result (Unit {0})
require_positive n = require (leb 1 n) (configuration_error "must be a positive integer")

-- `FinitePolicy(...)`, with the tests of `__post_init__`
unfoldable pub checked_policy : FinitePolicy → Result FinitePolicy
checked_policy p = do
  require_positive p.timeout_seconds
  require_positive p.max_timeout_seconds
  require_positive p.max_attempts
  require_positive p.retry_base_seconds
  require_positive p.retry_cap_seconds
  require_positive p.claim_grace_seconds
  require (leb p.timeout_seconds p.max_timeout_seconds)
      (configuration_error "timeout_seconds must not exceed max_timeout_seconds")
  require (leb p.retry_base_seconds p.retry_cap_seconds)
      (configuration_error "retry_base_seconds must not exceed retry_cap_seconds")
  ok p

-- `claim_ttl_seconds`
unfoldable pub claim_ttl_seconds : FinitePolicy → ℕ
claim_ttl_seconds p = p.timeout_seconds + p.claim_grace_seconds

-- `class AttemptOutcome`
pub record AttemptOutcome : Type 0 where
  pub outcome : String
  pub error : JsonValue
  pub retry_delay : Option ℕ

abbrev pub min : ℕ → ℕ → ℕ
min a b = if ltb b a then b else a

abbrev pub max : ℕ → ℕ → ℕ
max a b = if ltb a b then b else a

-- `backoff_delay`; the subtraction stops at 0, as `max(0, attempt - 1)` does
unfoldable pub backoff_delay : ℕ → FinitePolicy → ℕ
backoff_delay attempt policy =
    seconds (min (policy.retry_base_seconds * 2 ^ (attempt - 1)) policy.retry_cap_seconds)

abbrev error_fields : String → String → JsonValue
error_fields kind message = JsonValue.object (
    JsonFields.field "kind" (JsonValue.text kind)
      (JsonFields.field "message" (JsonValue.text message) JsonFields.end))

abbrev pub permanent_outcome : JsonValue → AttemptOutcome
permanent_outcome error = record { outcome = "permanent"; error = error; retry_delay = none }

-- `classify_error`; `show_unexpected` is the f-string of the type's name and the text
unfoldable pub classify_error :
    (String → String → String) → Failure → ℕ → FinitePolicy → AttemptOutcome
unfolding backoff_delay as_dict code
classify_error show_unexpected (Failure.contract ErrorClass.cancelled_execution message details)
      attempt policy =
    record {
      outcome = "cancelled";
      error = error_fields (code ErrorClass.cancelled_execution) message;
      retry_delay = none;
    }
classify_error show_unexpected (Failure.contract ErrorClass.retryable_execution message details)
      attempt policy =
    record {
      outcome = "retryable";
      error = as_dict ErrorClass.retryable_execution message details;
      retry_delay = some (backoff_delay attempt policy);
    }
classify_error show_unexpected (Failure.contract cls message details) attempt policy =
    permanent_outcome (as_dict cls message details)
classify_error show_unexpected (Failure.rate_limited message retry_after details) attempt policy =
    record {
      outcome = "rate_limited";
      error = rate_limited_dict message details;
      retry_delay = some (max (backoff_delay attempt policy) retry_after);
    }
classify_error show_unexpected (Failure.unexpected name text) attempt policy = record {
  outcome = "retryable";
  error = error_fields "unexpected" (show_unexpected name text);
  retry_delay = some (backoff_delay attempt policy);
}

-- `retries_exhausted`
unfoldable pub retries_exhausted : ℕ → ℕ → Bool
retries_exhausted unit_max_attempts attempt = leb unit_max_attempts attempt
