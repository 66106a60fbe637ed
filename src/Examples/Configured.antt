-- ===== src/Examples/Configured.antt =====
-- A configuration of two pools, with utilizations in percent.
use native.Mathlib.Nat.{mul-le-mul_left}
use ptf.Prelude.{
  ℕ, ◌+◌, ◌*◌, ◌/◌, ◌≤◌, ◌≡◌, refl, String, Bool, true, none, some, [], ◌∷◌, arith, leb, ltb, ◌-◌,
  Option, ◌&&◌, All, ◌==◌, if◌then◌else◌,
}
use ptf.Prelude.Table.{find_where}
use ptf.Core.Config.{
  require_positive, require_non_negative, ContinuousPolicy, continuous_policy, RuntimePoolConfig,
  DatabaseCapacity, secret_reference, check_version, decimal_value, require_name,
}
use ptf.Core.Config.Pools.{
  RuntimeConfig, runtime_pool_config, check_targets, database_capacity, runtime_config,
  worst_case_connections, pool_demand_of, pool_of, check_pool_names, check_class, check_classes,
  check_queue, connection_capacity, runtime_budget, total_demand, remaining, is_safe,
}
use ptf.Core.Config.Capacity.{IsRouted, running_connections, runtime_config_lem}
use ptf.Core.Enums.{WorkloadMode}
use ptf.Core.Errors.{ok, err, configuration_error}
use ptf.Core.Json.{ℤ}
use ptf.Core.Text.{is_required, is_trimmed}
use ptf.Worker.Retry.{default_policy}

abbrev fraction : ℕ → Bool
fraction x = leb 1 x && ltb x 100

abbrev limited : ℕ → Bool
limited x = leb 1 x && leb x 70

abbrev percent : ℕ → ℕ → ℕ
percent n x = n * x / 100

abbrev decimal : ℕ → Option ℕ
decimal c = if leb b'0' c && leb c b'9' then some (c - b'0') else none

secret :
    secret_reference decimal "p" "s" "12"
    ≡ ok (record { project_id = "p"; secret_id = "s"; version = "12" })
unfolding secret_reference check_version decimal_value require_name is_required is_trimmed
secret = refl

-- a moving alias is refused
latest :
    secret_reference decimal "p" "s" "latest"
    ≡ err (configuration_error "secret version must be an explicit positive version")
unfolding secret_reference check_version decimal_value require_name is_required is_trimmed
latest = refl

abbrev units_pool : RuntimePoolConfig ℕ
units_pool = record {
  mode = WorkloadMode.finite;
  min_replicas = 0;
  max_replicas = 10;
  connections_per_replica = 4;
  target_messages_per_instance = some 8;
  target_cpu_utilization = none;
}

made_units :
    runtime_pool_config fraction limited percent WorkloadMode.finite
      (ℤ.pos 0)
      (ℤ.pos 10)
      (ℤ.pos 4)
      (some (ℤ.pos 8))
      none
    ≡ ok units_pool
unfolding runtime_pool_config require_positive require_non_negative check_targets
made_units = refl

abbrev feeds_pool : RuntimePoolConfig ℕ
feeds_pool = record {
  mode = WorkloadMode.continuous;
  min_replicas = 2;
  max_replicas = 4;
  connections_per_replica = 5;
  target_messages_per_instance = none;
  target_cpu_utilization = some 60;
}

made_feeds :
    runtime_pool_config fraction limited percent WorkloadMode.continuous
      (ℤ.pos 2)
      (ℤ.pos 4)
      (ℤ.pos 5)
      none
      (some 60)
    ≡ ok feeds_pool
unfolding runtime_pool_config require_positive require_non_negative check_targets
made_feeds = refl

abbrev timing : ContinuousPolicy
timing = record {
  heartbeat_seconds = 15;
  lease_seconds = 60;
  renew_before_expiry_seconds = 30;
  reconcile_seconds = 60;
  drain_seconds = 120;
  takeover_seconds = 150;
}

made_timing :
    continuous_policy (ℤ.pos 15) (ℤ.pos 60) (ℤ.pos 30) (ℤ.pos 60) (ℤ.pos 120) (ℤ.pos 150)
    ≡ ok timing
unfolding continuous_policy require_positive
made_timing = refl

abbrev capacity : DatabaseCapacity ℕ
capacity = record {
  max_connections = 120;
  reserved_connections = 10;
  utilization_limit = 70;
  fixed_service_connections = 7;
}

made_capacity :
    database_capacity fraction limited percent (ℤ.pos 120) (ℤ.pos 10) 70 (ℤ.pos 7) ≡ ok capacity
unfolding database_capacity require_positive require_non_negative
made_capacity = refl

abbrev config : RuntimeConfig ℕ
config = record {
  runtime_pools = ("units", units_pool) ∷ ("feeds", feeds_pool) ∷ [];
  execution_classes =
      ("small", record { runtime_pool = "units"; queue = some "small-queue" })
      ∷ ("feed", record { runtime_pool = "feeds"; queue = none })
      ∷ [];
  database = capacity;
  finite = default_policy;
  continuous = timing;
}

accepted : runtime_config fraction limited percent config ≡ ok config
unfolding runtime_config check_pool_names check_classes check_class check_queue pool_of find_where
    require_name is_required is_trimmed connection_capacity runtime_budget pool_demand_of
    worst_case_connections total_demand remaining is_safe
accepted = refl

-- ten more connections for fixed services are too many
over_capacity :
    runtime_config fraction limited percent
      (record config { database = record capacity { fixed_service_connections = 18 } })
    ≡ err (configuration_error "worst-case database connection demand exceeds safe budget")
unfolding runtime_config check_pool_names check_classes check_class check_queue pool_of find_where
    require_name is_required is_trimmed connection_capacity runtime_budget pool_demand_of
    worst_case_connections total_demand remaining is_safe
over_capacity = refl

scales : (n x : ℕ) → limited x ≡ true → percent n x ≤ n
scales n x h = ground (arith, mul-le-mul_left n (at_most h))
  where
    at_most : limited x ≡ true → x ≤ 70
    at_most h = ground (arith, h)

abbrev scaled_out : String → ℕ
scaled_out name = if name == "units" then 9 else 4

few : All (λ entry. scaled_out entry.0 ≤ entry.1.max_replicas) config.runtime_pools
few = (omega arith, (omega arith, tt))

runtime_config_lem_example :
    (running_connections scaled_out config.runtime_pools + 7 + 10 ≤ 120)
    × All (λ entry. IsRouted config.runtime_pools entry.1) config.execution_classes
runtime_config_lem_example =
    runtime_config_lem fraction limited percent scales (ℤ.pos 120) (ℤ.pos 10) (ℤ.pos 7) 70 config
      made_capacity accepted scaled_out few
