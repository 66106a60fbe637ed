-- ===== src/Continuous/Discovery.antt =====
-- `PartitionContext` and `discover_partitions` of src/distributed_runtime/continuous/contracts.py. A
-- sink registry is the function that it gives for a name, or the exception; a context keeps of its
-- cancellation and deadline nothing that `emit` reads.
use ptf.Prelude.{ℕ, String, Bool, false, ◌==◌, ◌&&◌, ◌||◌, List, [], ◌∷◌, nat_eq, not}
use ptf.Prelude.Table.{exists_where, order_by}
use ptf.Core.Errors.{Result, ok, require, value_error, ◌>>◌}
use ptf.Core.Name.{codes, is_alphanumeric}
use ptf.Core.Text.{all_codes, text_le}
use ptf.Continuous.Contracts.{Partition, LeaseHandle}

-- `[A-Za-z0-9._:/-]`
abbrev is_stable_char : ℕ → Bool
is_stable_char c =
    is_alphanumeric c
    || (nat_eq c b'.' || nat_eq c b'_' || nat_eq c b':' || nat_eq c b'/' || nat_eq c b'-')

-- `_STABLE_NAME.fullmatch`
unfoldable pub is_sink_name : List ℕ → Bool
unfolding all_codes
is_sink_name [] = false
is_sink_name (c ∷ cs) = is_alphanumeric c && all_codes is_stable_char cs

-- `_require_stable_name`
unfoldable pub require_stable_name : String → Result (Unit {0})
unfolding is_sink_name
require_stable_name value =
    require (is_sink_name (codes value)) (value_error "must be a non-empty stable name")

-- `discover_partitions`: the loop on what the workload returned, and the sorting
unfoldable pub check_distinct : List String → List Partition → Result (Unit {0})
check_distinct seen [] = ok tt
check_distinct seen (p ∷ ps) = do
  require (not (exists_where (λ id. id == p.partition_id) seen))
      (value_error "duplicate partition_id")
  check_distinct (p.partition_id ∷ seen) ps

unfoldable pub discover_partitions : List Partition → Result (List Partition)
unfolding check_distinct
discover_partitions discovered =
    check_distinct [] discovered
    >> ok (order_by (λ a b. text_le a.partition_id b.partition_id) discovered)

-- `class PartitionContext`
pub record PartitionContext : Type 0 where
  pub workload_id : String
  pub partition : Partition
  pub lease : LeaseHandle
  pub metadata : List (String × String)

-- `PartitionContext(...)`, with the tests of `__post_init__`
unfoldable pub partition_context :
    String → Partition → LeaseHandle → List (String × String) → Result PartitionContext
partition_context workload_id p lease metadata = do
  require (p.partition_id == lease.partition_id)
      (value_error "partition and lease identifiers must match")
  require (not (exists_where (λ m. m.0 == "") metadata))
      (value_error "context metadata must contain non-empty string keys and values")
  ok (record { workload_id = workload_id; partition = p; lease = lease; metadata = metadata })
