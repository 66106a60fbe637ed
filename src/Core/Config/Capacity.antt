-- ===== src/Core/Config/Capacity.antt =====
-- src/distributed_runtime/core/config.py: what a checked `RuntimeConfig` promises of the database and
-- of the routes of its execution classes.
use native.Mathlib.Nat.{mul-le-mul_right}
use ptf.Prelude.{
  ℕ, ◌+◌, ◌-◌, ◌*◌, ◌≤◌, ◌≡◌, String, Bool, true, false, Option, some, List, [], ◌∷◌, arith, All,
  is_some, Option-cases, inl, inr,
}
use ptf.Core.Config.{
  require_positive, require_non_negative, ExecutionClassConfig, RuntimePoolConfig, DatabaseCapacity,
}
use ptf.Core.Config.Pools.{
  Pools, RuntimeConfig, worst_case_connections, pool_demand_of, pool_of, check_class, check_classes,
  check_queue, database_capacity, runtime_budget, connection_capacity, total_demand, remaining,
  is_safe, runtime_config,
}
use ptf.Core.Enums.{WorkloadMode}
use ptf.Core.Errors.{ok, >>=-eq-ok}
use ptf.Core.Json.{ℤ}

abbrev pub has_finite_mode : WorkloadMode → Bool
has_finite_mode WorkloadMode.finite = true
has_finite_mode WorkloadMode.continuous = false

queue_lem :
    (mode : WorkloadMode) (queue : Option String)
    → check_queue mode queue ≡ ok tt
    → is_some queue ≡ has_finite_mode mode
unfolding check_queue
queue_lem WorkloadMode.finite queue e = ground (arith, e)
queue_lem WorkloadMode.continuous queue e = ground (arith, e)

is_safe_lem :
    (budget fixed pool : ℕ)
    → is_safe (record { budget = budget; fixed_demand = fixed; pool_demand = pool }) ≡ true
    → fixed + pool ≤ budget
unfolding is_safe remaining total_demand
is_safe_lem budget fixed pool e = ground (arith, e)

module _ {F : Type 0} where
  -- the pool of the class is there, and the class has a queue exactly if that pool is finite
  pub record IsRouted (pools : Pools F) (c : ExecutionClassConfig) : Type 0 where
    pub pool : RuntimePoolConfig F
    pub found : pool_of c.runtime_pool pools ≡ some pool
    pub queued : is_some c.queue ≡ has_finite_mode pool.mode

  -- the connections of a number of replicas for each pool
  unfoldable pub running_connections : (String → ℕ) → Pools F → ℕ
  running_connections replicas [] = 0
  running_connections replicas ((name, p) ∷ pools) =
      replicas name * p.connections_per_replica + running_connections replicas pools

  running_connections-bound :
      (replicas : String → ℕ) (pools : Pools F)
      → All (λ entry. replicas entry.0 ≤ entry.1.max_replicas) pools
      → running_connections replicas pools ≤ pool_demand_of pools
  unfolding running_connections pool_demand_of worst_case_connections
  running_connections-bound replicas [] h = omega arith
  running_connections-bound replicas ((name, p) ∷ pools) h = ground (
    arith,
    mul-le-mul_right p.connections_per_replica h.0,
    running_connections-bound replicas pools h.1,
  )

  check_class-IsRouted :
      (pools : Pools F) (name : String) (c : ExecutionClassConfig)
      → check_class pools name c ≡ ok tt
      → IsRouted pools c
  unfolding check_class check_queue
  check_class-IsRouted pools name c e = elim (Option-cases (pool_of c.runtime_pool pools)) [
    | inl missing ↦ absurd (ground (arith, e, missing))
    | inr (p, found) ↦ record {
      pool = p;
      found = found;
      queued = queue_lem p.mode c.queue (ground (arith, e, found));
    }
  ]

  check_classes-IsRouted :
      (pools : Pools F) (classes : List (String × ExecutionClassConfig))
      → check_classes pools classes ≡ ok tt
      → All (λ entry. IsRouted pools entry.1) classes
  unfolding check_classes
  check_classes-IsRouted pools [] e = tt
  check_classes-IsRouted pools ((name, c) ∷ classes) e =
      let (done, first, rest) =
        >>=-eq-ok (check_class pools name c) (λ u. check_classes pools classes) e in
      (check_class-IsRouted pools name c first, check_classes-IsRouted pools classes rest)

  module _ (fraction limited : F → Bool) (floor_times : ℕ → F → ℕ) where
    database_capacity-reserves :
        (most reserved fixed : ℤ) (utilization : F) (d : DatabaseCapacity F)
        → database_capacity fraction limited floor_times most reserved utilization fixed ≡ ok d
        → (d.reserved_connections ≤ d.max_connections) × (limited d.utilization_limit ≡ true)
    unfolding database_capacity require_positive require_non_negative
    database_capacity-reserves (ℤ.pos m) (ℤ.pos r) (ℤ.pos f) utilization d e =
        (ground (arith, e), ground (arith, e))
    database_capacity-reserves (ℤ.negsuc m) reserved fixed utilization d e =
        absurd (ground (arith, e))
    database_capacity-reserves (ℤ.pos m) (ℤ.negsuc r) fixed utilization d e =
        absurd (ground (arith, e))
    database_capacity-reserves (ℤ.pos m) (ℤ.pos r) (ℤ.negsuc f) utilization d e =
        absurd (ground (arith, e))

    -- If the product of a count with an allowed utilization is at most the count: when a configuration
    -- is accepted, over a database capacity that was accepted, then whatever numbers of replicas the
    -- pools run, each at most the maximum of its pool, the connections of all replicas, those of the
    -- fixed services and the reserved ones together fit the limit of the database; and each execution
    -- class refers to a pool that is there, with a queue exactly if that pool is finite.
    pub runtime_config_lem :
        ((n : ℕ) (x : F) → limited x ≡ true → floor_times n x ≤ n)
        → (most reserved fixed : ℤ) (utilization : F) (c : RuntimeConfig F)
        → database_capacity fraction limited floor_times most reserved utilization fixed
          ≡ ok c.database
        → runtime_config fraction limited floor_times c ≡ ok c
        → (replicas : String → ℕ)
        → All (λ entry. replicas entry.0 ≤ entry.1.max_replicas) c.runtime_pools
        → let d = c.database in
          (running_connections replicas c.runtime_pools
              + d.fixed_service_connections
              + d.reserved_connections
            ≤ d.max_connections)
          × All (λ entry. IsRouted c.runtime_pools entry.1) c.execution_classes
    unfolding runtime_config connection_capacity runtime_budget
    runtime_config_lem scales most reserved fixed utilization c made accepted replicas few =
        let d = c.database in
        let (kept, allowed) = database_capacity-reserves most reserved fixed utilization d made in
        let safe =
          is_safe_lem (runtime_budget fraction limited floor_times d) d.fixed_service_connections
            (pool_demand_of c.runtime_pools) (ground (arith, accepted)) in
        let scaled =
          scales (d.max_connections - d.reserved_connections) d.utilization_limit allowed in
        (
          ground
              (arith, kept, scaled, safe, running_connections-bound replicas c.runtime_pools few),
          check_classes-IsRouted c.runtime_pools c.execution_classes (ground (arith, accepted)),
        )
