-- ===== src/Worker/Settle.antt =====
-- How a worker records an attempt: the end of `execute_claimed`, and `_record_failure`, of
-- src/distributed_runtime/worker/finite.py.
use ptf.Prelude.{ℕ, ◌+◌, String, Bool, ◌==◌, ◌&&◌, ◌||◌, Option, none, some, if◌then◌else◌}
use ptf.Core.Json.{JsonValue}
use ptf.Core.Failure.{Failure}
use ptf.State.Tx.{Tx, pure, ◌>>=◌, ◌>>◌}
use ptf.State.Finite.Claim.{ClaimedUnit}
use ptf.State.Finite.Attempt.{complete_attempt, dead_letter}
use ptf.State.Finite.Finalize.{finalize_run_if_done}
use ptf.Worker.Retry.{AttemptOutcome, FinitePolicy, classify_error, retries_exhausted}

-- `class HandledUnit`
pub record HandledUnit : Type 0 where
  pub run_id : String
  pub unit_key : String
  pub outcome : String

-- `outcome in {"retryable", "rate_limited"}`
abbrev pub is_retried : String → Bool
is_retried outcome = outcome == "retryable" || outcome == "rate_limited"

-- whether the failure becomes permanent because no attempt is left
abbrev pub gives_up : ClaimedUnit → AttemptOutcome → Bool
gives_up c o = retries_exhausted c.unit.max_attempts c.attempt && is_retried o.outcome

unfoldable pub final_outcome : ClaimedUnit → AttemptOutcome → String
unfolding retries_exhausted
final_outcome c o = if gives_up c o then "permanent" else o.outcome

unfoldable pub retry_at : ℕ → ClaimedUnit → AttemptOutcome → Option ℕ
unfolding retries_exhausted
retry_at now c o =
    if gives_up c o
    then none
    else elim o.retry_delay [ none ↦ none | some delay ↦ some (now + delay) ]

-- `if final == "permanent": dead_letter`, and what follows
unfoldable pub bury_and_finalize : ClaimedUnit → String → Tx (Unit {0})
bury_and_finalize c final = do
  if final == "permanent" then dead_letter c else pure tt
  _ ← finalize_run_if_done c.run_id
  pure tt

-- `_record_failure`
unfoldable pub record_failure : ℕ → ClaimedUnit → String → AttemptOutcome → Tx (Unit {0})
unfolding final_outcome retry_at bury_and_finalize
record_failure now c execution_id o =
    complete_attempt c execution_id (final_outcome c o) JsonValue.null o.error (retry_at now c o)
    >> bury_and_finalize c (final_outcome c o)

-- how the handler's call ended, a timeout and a cancellation of the task included
pub data Attempted : Type 0 where
  returned : JsonValue → Attempted
  raised : Failure → Attempted

abbrev handled : ClaimedUnit → String → HandledUnit
handled c outcome = record { run_id = c.run_id; unit_key = c.unit_key; outcome = outcome }

-- the `try` of `execute_claimed` and what follows, once the handler's call has ended
unfoldable pub settle :
    (String → String → String)
    → ℕ
    → FinitePolicy
    → ClaimedUnit
    → String
    → Attempted
    → Tx HandledUnit
unfolding record_failure
settle show_unexpected now policy c execution_id (returned result) = do
  complete_attempt c execution_id "succeeded" result JsonValue.null none
  _ ← finalize_run_if_done c.run_id
  pure (handled c "succeeded")
settle show_unexpected now policy c execution_id (raised failure) = do
  let outcome = classify_error show_unexpected failure c.attempt policy
  record_failure now c execution_id outcome
  pure (handled c outcome.outcome)
