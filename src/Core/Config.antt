-- ===== src/Core/Config.antt =====
-- src/distributed_runtime/core/config.py: the configuration of pools, execution classes and the
-- database. `FinitePolicy` is in Worker/Retry. A mapping is a list of entries, each with a key of its
-- own. `F` is the type of floats, with the tests and the product that the code has of them:
-- `fraction` is `0 < x < 1`, `limited` is `0 < x <= 0.70`, and `floor_times n x` is `floor(n * x)`.
-- `decimal` gives the value of a decimal digit of any script.
pub mod Pools
pub mod Capacity
use Prim.Native.String.{◌++◌}
use ptf.Prelude.{
  ℕ, ◌+◌, ◌-◌, ◌*◌, String, Bool, true, false, ◌==◌, ◌||◌, Option, none, some, List, [], ◌∷◌, leb,
  ltb, nat_eq, not, length, is_none, is_some, if◌then◌else◌,
}
use ptf.Prelude.Table.{find_where}
use ptf.Core.Enums.{WorkloadMode}
use ptf.Core.Errors.{Result, ok, err, require, configuration_error, value_error, ◌>>=◌, ◌>>◌}
use ptf.Core.Json.{ℤ}
use ptf.Core.Name.{codes}
use ptf.Core.Text.{is_required}

-- `_require_positive` and `_require_non_negative`
unfoldable pub require_positive : String → ℤ → Result ℕ
require_positive name (ℤ.pos n) =
    require (leb 1 n) (configuration_error (name ++ " must be a positive integer")) >> ok n
require_positive name (ℤ.negsuc n) =
    err (configuration_error (name ++ " must be a positive integer"))

unfoldable pub require_non_negative : String → ℤ → Result ℕ
require_non_negative name (ℤ.pos n) = ok n
require_non_negative name (ℤ.negsuc n) =
    err (configuration_error (name ++ " must be a non-negative integer"))

-- `_require_name`
unfoldable pub require_name : String → String → Result (Unit {0})
require_name name value =
    require (is_required value)
      (configuration_error (name ++ " must be a non-empty trimmed string"))

-- `class SecretReference`
pub record SecretReference : Type 0 where
  pub project_id : String
  pub secret_id : String
  pub version : String

-- `version.isdecimal()` with `int(version)`: none if a character is no decimal digit
unfoldable pub decimal_value : (ℕ → Option ℕ) → ℕ → List ℕ → Option ℕ
decimal_value decimal n [] = some n
decimal_value decimal n (c ∷ cs) = elim (decimal c) [
  | none ↦ none
  | some d ↦ decimal_value decimal (10 * n + d) cs
]

-- the digits that `int` reads at most
abbrev max_digits : ℕ
max_digits = 4300

unfoldable pub check_version : (ℕ → Option ℕ) → String → Result (Unit {0})
unfolding decimal_value
check_version decimal version =
    let wrong = configuration_error "secret version must be an explicit positive version" in
    elim (decimal_value decimal 0 (codes version)) [
      | none ↦ err wrong
      | some n ↦ do
        require (not (version == "latest")) wrong
        require (not (version == "")) wrong
        require (leb (length (codes version)) max_digits)
            (value_error "Exceeds the limit for integer string conversion")
        require (leb 1 n) wrong
    ]

-- `SecretReference(...)`, and `resource_name`
unfoldable pub secret_reference : (ℕ → Option ℕ) → String → String → String → Result SecretReference
unfolding check_version require_name
secret_reference decimal project secret version = do
  require_name "secret project_id" project
  require_name "secret secret_id" secret
  check_version decimal version
  ok (record { project_id = project; secret_id = secret; version = version })

unfoldable pub resource_name : SecretReference → String
resource_name s =
    "projects/" ++ (s.project_id ++ ("/secrets/" ++ (s.secret_id ++ ("/versions/" ++ s.version))))

-- `class ContinuousPolicy`
pub record ContinuousPolicy : Type 0 where
  pub heartbeat_seconds : ℕ
  pub lease_seconds : ℕ
  pub renew_before_expiry_seconds : ℕ
  pub reconcile_seconds : ℕ
  pub drain_seconds : ℕ
  pub takeover_seconds : ℕ

-- `ContinuousPolicy(...)`
unfoldable pub continuous_policy : ℤ → ℤ → ℤ → ℤ → ℤ → ℤ → Result ContinuousPolicy
unfolding require_positive
continuous_policy heartbeat lease renew_before reconcile drain takeover = do
  h ← require_positive "heartbeat_seconds" heartbeat
  l ← require_positive "lease_seconds" lease
  r ← require_positive "renew_before_expiry_seconds" renew_before
  c ← require_positive "reconcile_seconds" reconcile
  d ← require_positive "drain_seconds" drain
  t ← require_positive "takeover_seconds" takeover
  require (leb h r)
      (configuration_error "heartbeat_seconds must not exceed renew_before_expiry_seconds")
  require (ltb r l)
      (configuration_error "renew_before_expiry_seconds must be less than lease_seconds")
  require (leb l t) (configuration_error "takeover_seconds must cover at least one lease")
  ok (record {
    heartbeat_seconds = h;
    lease_seconds = l;
    renew_before_expiry_seconds = r;
    reconcile_seconds = c;
    drain_seconds = d;
    takeover_seconds = t;
  })

-- `class ExecutionClassConfig`
pub record ExecutionClassConfig : Type 0 where
  pub runtime_pool : String
  pub queue : Option String

-- `ExecutionClassConfig(...)`
unfoldable pub execution_class_config : String → Option String → Result ExecutionClassConfig
unfolding require_name
execution_class_config pool queue = do
  require_name "runtime_pool" pool
  elim queue [ none ↦ ok tt | some q ↦ require_name "queue" q ]
  ok (record { runtime_pool = pool; queue = queue })

-- `class RuntimePoolConfig`
pub record RuntimePoolConfig (F : Type 0) : Type 0 where
  pub mode : WorkloadMode
  pub min_replicas : ℕ
  pub max_replicas : ℕ
  pub connections_per_replica : ℕ
  pub target_messages_per_instance : Option ℕ
  pub target_cpu_utilization : Option F

-- `class DatabaseCapacity`
pub record DatabaseCapacity (F : Type 0) : Type 0 where
  pub max_connections : ℕ
  pub reserved_connections : ℕ
  pub utilization_limit : F
  pub fixed_service_connections : ℕ
