-- ===== src/Worker/Backoff.antt =====
-- The delays of retries.
use native.Mathlib.Nat.{one-le-pow, pow-le-pow_right, mul-le-mul_left}
use ptf.Prelude.{ℕ, ◌-◌, ◌*◌, ◌^◌, ◌≤◌, ◌≡◌, String, true, none, some, arith, is_some}
use ptf.Core.Errors.{ok}
use ptf.Core.Failure.{Failure, ErrorClass}
use ptf.State.Db.{seconds}
use ptf.State.Finite.Attempt.{final_status}
use ptf.Worker.Retry.{FinitePolicy, checked_policy, backoff_delay, classify_error}
use ptf.Worker.Settle.{is_retried}

power_pos : (n : ℕ) → 1 ≤ 2 ^ n
power_pos n = one-le-pow n 2 (omega arith)

power_mono : (m n : ℕ) → m ≤ n → 2 ^ m ≤ 2 ^ n
power_mono m n le = pow-le-pow_right {n = 2} (omega arith) le

scale_mono : (b x y : ℕ) → x ≤ y → b * x ≤ b * y
scale_mono b x y le = mul-le-mul_left b le

-- Under a policy that passes its checks, a delay lies between the base and the cap.
pub backoff_delay_bounds :
    (attempt : ℕ) (policy : FinitePolicy)
    → checked_policy policy ≡ ok policy
    → (seconds policy.retry_base_seconds ≤ backoff_delay attempt policy)
      × (backoff_delay attempt policy ≤ seconds policy.retry_cap_seconds)
unfolding checked_policy backoff_delay
backoff_delay_bounds attempt policy valid =
    ground
      (arith, scale_mono policy.retry_base_seconds 1 (2 ^ (attempt - 1)) (power_pos (attempt - 1)))

-- Later attempts never wait less.
pub backoff_delay_mono :
    (a b : ℕ) (policy : FinitePolicy) → a ≤ b → backoff_delay a policy ≤ backoff_delay b policy
unfolding backoff_delay
backoff_delay_mono a b policy le = ground (
  arith,
  scale_mono policy.retry_base_seconds (2 ^ (a - 1)) (2 ^ (b - 1))
      (power_mono (a - 1) (b - 1) (omega arith)),
)

-- Whatever a handler raises, the outcome is one that `complete_attempt` knows, it has a delay exactly
-- if it is retried, and the delay is at least the backoff of the attempt.
pub classify_error_lem :
    (show_unexpected : String → String → String) (e : Failure) (attempt : ℕ) (policy : FinitePolicy)
    → let o = classify_error show_unexpected e attempt policy in
      (is_some (final_status o.outcome) ≡ true)
      × (is_some o.retry_delay ≡ is_retried o.outcome)
      × (elim o.retry_delay as (λ _. Type 0) [
        | none ↦ Unit {0}
        | some d ↦ backoff_delay attempt policy ≤ d
      ])
unfolding classify_error final_status
classify_error_lem show_unexpected (Failure.contract ErrorClass.runtime_contract message details)
      attempt policy =
    ground arith
classify_error_lem show_unexpected (Failure.contract ErrorClass.invalid_identifier message details)
      attempt policy =
    ground arith
classify_error_lem show_unexpected (Failure.contract ErrorClass.invariant_violation message details)
      attempt policy =
    ground arith
classify_error_lem show_unexpected (Failure.contract ErrorClass.planning_drift message details)
      attempt policy =
    ground arith
classify_error_lem show_unexpected (Failure.contract ErrorClass.cancelled_execution message details)
      attempt policy =
    ground arith
classify_error_lem show_unexpected (Failure.contract ErrorClass.retryable_execution message details)
      attempt policy =
    ground arith
classify_error_lem show_unexpected (Failure.contract ErrorClass.permanent_execution message details)
      attempt policy =
    ground arith
classify_error_lem show_unexpected (Failure.contract ErrorClass.unsupported_version message details)
      attempt policy =
    ground arith
classify_error_lem show_unexpected (Failure.rate_limited message retry_after details) attempt
      policy =
    ground arith
classify_error_lem show_unexpected (Failure.unexpected name text) attempt policy = ground arith
