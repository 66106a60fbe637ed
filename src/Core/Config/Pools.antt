-- ===== src/Core/Config/Pools.antt =====
-- `RuntimePoolConfig`, `DatabaseCapacity` and `RuntimeConfig`: their checks, and the demand that they
-- put on the database.
use ptf.Prelude.{
  ℕ, ◌+◌, ◌-◌, ◌*◌, String, Bool, true, false, ◌==◌, Option, none, some, List, [], ◌∷◌, leb, ltb,
  is_none, is_some, if◌then◌else◌,
}
use ptf.Prelude.Table.{find_where}
use ptf.Core.Config.{
  require_positive, require_non_negative, require_name, ContinuousPolicy, ExecutionClassConfig,
  RuntimePoolConfig, DatabaseCapacity,
}
use ptf.Core.Enums.{WorkloadMode}
use ptf.Core.Errors.{Result, ok, err, require, configuration_error, ◌>>=◌, ◌>>◌}
use ptf.Core.Json.{ℤ}
use ptf.Worker.Retry.{FinitePolicy}

-- `class ConnectionCapacity`, with its properties
pub record ConnectionCapacity : Type 0 where
  pub budget : ℕ
  pub fixed_demand : ℕ
  pub pool_demand : ℕ

unfoldable pub total_demand : ConnectionCapacity → ℕ
total_demand c = c.fixed_demand + c.pool_demand

-- `m - n`, of integers
abbrev minus : ℕ → ℕ → ℤ
minus m n = if leb n m then ℤ.pos (m - n) else ℤ.negsuc (n - m - 1)

unfoldable pub remaining : ConnectionCapacity → ℤ
unfolding total_demand
remaining c = minus c.budget (total_demand c)

unfoldable pub is_safe : ConnectionCapacity → Bool
unfolding remaining
is_safe c = elim (remaining c) [ ℤ.pos n ↦ true | ℤ.negsuc n ↦ false ]

abbrev pub Pools : Type 0 → Type 0
Pools F = List (String × RuntimePoolConfig F)

-- `class RuntimeConfig`
pub record RuntimeConfig (F : Type 0) : Type 0 where
  pub runtime_pools : Pools F
  pub execution_classes : List (String × ExecutionClassConfig)
  pub database : DatabaseCapacity F
  pub finite : FinitePolicy
  pub continuous : ContinuousPolicy

-- the queue that a class of a pool of this mode must have, or must not
unfoldable pub check_queue : WorkloadMode → Option String → Result (Unit {0})
check_queue WorkloadMode.finite queue =
    require (is_some queue)
      (configuration_error "finite execution class requires a queue/subscription")
check_queue WorkloadMode.continuous queue =
    require (is_none queue)
      (configuration_error "continuous execution class must not set a finite queue/subscription")

module _ {F : Type 0} where
  -- `worst_case_connections`
  unfoldable pub worst_case_connections : RuntimePoolConfig F → ℕ
  worst_case_connections p = p.max_replicas * p.connections_per_replica

  -- `sum(pool.worst_case_connections ...)`
  unfoldable pub pool_demand_of : Pools F → ℕ
  unfolding worst_case_connections
  pool_demand_of [] = 0
  pool_demand_of ((name, p) ∷ pools) = worst_case_connections p + pool_demand_of pools

  abbrev named : String → String × RuntimePoolConfig F → Bool
  named name entry = entry.0 == name

  -- `name in pools` with `pools[name]`
  unfoldable pub pool_of : String → Pools F → Option (RuntimePoolConfig F)
  pool_of name pools = elim (find_where (named name) pools) [
    | none ↦ none
    | some entry ↦ some entry.1
  ]

  unfoldable pub check_pool_names : Pools F → Result (Unit {0})
  unfolding require_name
  check_pool_names [] = ok tt
  check_pool_names ((name, p) ∷ pools) =
      require_name "runtime pool name" name >> check_pool_names pools

  unfoldable pub check_class : Pools F → String → ExecutionClassConfig → Result (Unit {0})
  unfolding require_name pool_of check_queue
  check_class pools name c = do
    require_name "execution class name" name
    elim (pool_of c.runtime_pool pools) [
      | none ↦ err (configuration_error "execution class references unknown pool")
      | some p ↦ check_queue p.mode c.queue
    ]

  unfoldable pub check_classes : Pools F → List (String × ExecutionClassConfig) → Result (Unit {0})
  unfolding check_class
  check_classes pools [] = ok tt
  check_classes pools ((name, c) ∷ classes) =
      check_class pools name c >> check_classes pools classes

  abbrev some_pool : Pools F → Bool
  some_pool [] = false
  some_pool (p ∷ ps) = true

  module _ (fraction limited : F → Bool) (floor_times : ℕ → F → ℕ) where
    -- what `__post_init__` asks of the targets, by the mode
    unfoldable pub check_targets : WorkloadMode → ℕ → Option ℤ → Option F → Result (Option ℕ)
    unfolding require_positive
    check_targets WorkloadMode.finite min_replicas none cpu =
        err (configuration_error "finite pools require target_messages_per_instance")
    check_targets WorkloadMode.finite min_replicas (some messages) cpu = do
      n ← require_positive "target_messages_per_instance" messages
      require (is_none cpu) (configuration_error "finite pools must not set target_cpu_utilization")
      ok (some n)
    check_targets WorkloadMode.continuous min_replicas messages cpu = do
      require (leb 2 min_replicas)
          (configuration_error "continuous pools require at least two replicas")
      require (elim cpu [ none ↦ false | some x ↦ fraction x ])
          (configuration_error "continuous target_cpu_utilization must be between 0 and 1")
      require (is_none messages)
          (configuration_error "continuous pools must not set target_messages_per_instance")
      ok none

    -- `RuntimePoolConfig(...)`
    unfoldable pub runtime_pool_config :
        WorkloadMode → ℤ → ℤ → ℤ → Option ℤ → Option F → Result (RuntimePoolConfig F)
    unfolding require_positive require_non_negative check_targets
    runtime_pool_config mode min_replicas max_replicas connections messages cpu = do
      low ← require_non_negative "min_replicas" min_replicas
      high ← require_positive "max_replicas" max_replicas
      each ← require_positive "connections_per_replica" connections
      require (leb low high) (configuration_error "min_replicas must not exceed max_replicas")
      target ← check_targets mode low messages cpu
      ok (record {
        mode = mode;
        min_replicas = low;
        max_replicas = high;
        connections_per_replica = each;
        target_messages_per_instance = target;
        target_cpu_utilization = cpu;
      })

    -- `DatabaseCapacity(...)`
    unfoldable pub database_capacity : ℤ → ℤ → F → ℤ → Result (DatabaseCapacity F)
    unfolding require_positive require_non_negative
    database_capacity max_connections reserved utilization fixed = do
      most ← require_positive "max_connections" max_connections
      kept ← require_non_negative "reserved_connections" reserved
      services ← require_non_negative "fixed_service_connections" fixed
      require (ltb kept most)
          (configuration_error "reserved_connections must be less than max_connections")
      require (limited utilization)
          (configuration_error "utilization_limit must be greater than 0 and at most 0.70")
      ok (record {
        max_connections = most;
        reserved_connections = kept;
        utilization_limit = utilization;
        fixed_service_connections = services;
      })

    -- `runtime_budget`
    unfoldable pub runtime_budget : DatabaseCapacity F → ℕ
    runtime_budget d = floor_times (d.max_connections - d.reserved_connections) d.utilization_limit

    -- `connection_capacity`
    unfoldable pub connection_capacity : RuntimeConfig F → ConnectionCapacity
    unfolding runtime_budget pool_demand_of
    connection_capacity c = record {
      budget = runtime_budget c.database;
      fixed_demand = c.database.fixed_service_connections;
      pool_demand = pool_demand_of c.runtime_pools;
    }

    -- `RuntimeConfig(...)`
    unfoldable pub runtime_config : RuntimeConfig F → Result (RuntimeConfig F)
    unfolding check_pool_names check_classes connection_capacity is_safe
    runtime_config c = do
      require (some_pool c.runtime_pools)
          (configuration_error "at least one runtime pool is required")
      check_pool_names c.runtime_pools
      check_classes c.runtime_pools c.execution_classes
      require (is_safe (connection_capacity c))
          (configuration_error "worst-case database connection demand exceeds safe budget")
      ok c
