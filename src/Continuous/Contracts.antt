-- ===== src/Continuous/Contracts.antt =====
-- `Partition` and `LeaseHandle` of src/distributed_runtime/continuous/contracts.py. The identifiers
-- and the payload are checked where they are made.
use ptf.Prelude.{ℕ, String, Bool, ◌==◌, ◌&&◌, List, leb, nat_eq, not}
use ptf.Prelude.Table.{exists_where}
use ptf.Core.Json.{JsonFields, finite_fields}
use ptf.Core.Errors.{Result, ok, require, value_error, ◌>>◌}

-- `class Partition`
pub record Partition : Type 0 where
  pub partition_id : String
  pub payload : JsonFields
  pub weight : ℕ
  pub metadata : List (String × String)

-- `Partition(...)`, with the tests of `__post_init__`
unfoldable pub partition : String → JsonFields → ℕ → List (String × String) → Result Partition
unfolding finite_fields
partition id payload weight metadata = do
  require (leb 1 weight) (value_error "partition weight must be a positive integer")
  require (not (exists_where (λ m. m.0 == "") metadata))
      (value_error "partition metadata must contain non-empty string keys and values")
  require (finite_fields payload) (value_error "payload does not support non-finite numbers")
  ok (record { partition_id = id; payload = payload; weight = weight; metadata = metadata })

-- `class LeaseHandle`
pub record LeaseHandle : Type 0 where
  pub deployment_id : String
  pub partition_id : String
  pub owner_id : String
  pub fencing_token : ℕ

-- `LeaseHandle(...)`, with the test of `__post_init__`
unfoldable pub lease_handle : String → String → String → ℕ → Result LeaseHandle
lease_handle deployment partition owner token = do
  require (leb 1 token) (value_error "fencing_token must be a positive integer")
  ok (record {
    deployment_id = deployment;
    partition_id = partition;
    owner_id = owner;
    fencing_token = token;
  })

-- `LeaseHandle.authorizes`
unfoldable pub authorizes : LeaseHandle → String → String → String → ℕ → Bool
authorizes lease deployment partition owner token =
    lease.deployment_id == deployment
    && (lease.partition_id == partition
        && (lease.owner_id == owner && nat_eq lease.fencing_token token))
