-- ===== src/State/Continuous/Sync.antt =====
-- Partitions: `StoredPartition`, `sync_partitions`, `partitions` of state/continuous.py.
use ptf.Prelude.{
  ℕ, String, Bool, ◌==◌, ◌&&◌, Option, none, List, [], ◌∷◌, ◌++◌, map, not, if◌then◌else◌,
}
use ptf.Prelude.Table.{update_where, exists_where, select_where, order_by}
use ptf.Core.Enums.{PartitionStatus, is_inactive, is_leasable}
use ptf.Core.Json.{JsonFields}
use ptf.Core.Errors.{foreign_key_violation}
use ptf.Continuous.Contracts.{Partition}
use ptf.State.Db.{Db, PartitionRow}
use ptf.State.Tx.{Tx, pure, raise, query, transaction, ◌>>◌}
use ptf.State.Continuous.Deployments.{has_deployment_id}

-- `class StoredPartition`
pub record StoredPartition : Type 0 where
  pub deployment_id : String
  pub partition_id : String
  pub status : PartitionStatus
  pub weight : ℕ
  pub payload : JsonFields
  pub owner_id : Option String
  pub fencing_token : ℕ
  pub lease_expires_at : Option ℕ

-- `_partition_from_row`
abbrev pub partition_from_row : PartitionRow → StoredPartition
partition_from_row r = record {
  deployment_id = r.deployment_id;
  partition_id = r.partition_id;
  status = r.status;
  weight = r.weight;
  payload = r.payload;
  owner_id = r.owner_id;
  fencing_token = r.fencing_token;
  lease_expires_at = r.lease_expires_at;
}

-- `deployment_id = $1 AND partition_id = $2`
abbrev pub has_partition : String → String → PartitionRow → Bool
has_partition deployment id r = r.deployment_id == deployment && r.partition_id == id

abbrev pub in_deployment : String → PartitionRow → Bool
in_deployment deployment r = r.deployment_id == deployment

-- `DO UPDATE SET weight = ..., payload = ..., status = CASE ...`
abbrev pub refresh_row : Partition → PartitionRow → PartitionRow
refresh_row p r = record r {
  weight = p.weight;
  payload = p.payload;
  status = if is_inactive r.status then PartitionStatus.unassigned else r.status;
}

abbrev pub unassigned_row : String → Partition → PartitionRow
unassigned_row deployment p = record {
  deployment_id = deployment;
  partition_id = p.partition_id;
  status = PartitionStatus.unassigned;
  weight = p.weight;
  payload = p.payload;
  owner_id = none;
  fencing_token = 0;
  lease_expires_at = none;
}

-- `INSERT INTO continuous_partitions ... ON CONFLICT (deployment_id, partition_id) DO UPDATE`
unfoldable pub upsert_partition : String → Partition → Tx (Unit {0})
upsert_partition deployment p db =
    if exists_where (has_partition deployment p.partition_id) db.partitions
    then pure tt (record db {
      partitions =
          update_where (has_partition deployment p.partition_id) (refresh_row p) db.partitions;
    })
    else if exists_where (has_deployment_id deployment) db.deployments
    then pure tt (record db { partitions = db.partitions ++ unassigned_row deployment p ∷ [] })
    else raise foreign_key_violation db

-- the `executemany`
unfoldable pub upsert_partitions : String → List Partition → Tx (Unit {0})
unfolding upsert_partition
upsert_partitions deployment [] = pure tt
upsert_partitions deployment (p ∷ ps) = do
  upsert_partition deployment p
  upsert_partitions deployment ps

-- `partition_id = ANY($2)`
abbrev pub is_desired : List Partition → PartitionRow → Bool
is_desired ps r = exists_where (λ p. p.partition_id == r.partition_id) ps

-- the rows that the second statement retires
abbrev pub is_missing : String → List Partition → PartitionRow → Bool
is_missing deployment ps r =
    in_deployment deployment r && (not (is_desired ps r) && is_leasable r.status)

abbrev pub retire_row : PartitionRow → PartitionRow
retire_row r = record r {
  status = PartitionStatus.inactive;
  owner_id = none;
  lease_expires_at = none;
}

-- `if desired_ids:` and the second statement
unfoldable pub retire_missing : String → List Partition → Db → Db
retire_missing deployment [] db = db
retire_missing deployment (p ∷ ps) db = record db {
  partitions = update_where (is_missing deployment (p ∷ ps)) retire_row db.partitions;
}

-- `ORDER BY partition_id`
unfoldable pub partitions_of : (String → String → Bool) → String → Db → List StoredPartition
partitions_of collation deployment db = map partition_from_row (
    order_by (λ a b. collation a.partition_id b.partition_id)
      (select_where (in_deployment deployment) db.partitions))

unfoldable pub sync_partitions :
    (String → String → Bool) → String → List Partition → Tx (List StoredPartition)
unfolding upsert_partitions retire_missing partitions_of
sync_partitions collation deployment ps = transaction (do
  upsert_partitions deployment ps
  (λ db. pure tt (retire_missing deployment ps db))
  query (partitions_of collation deployment))

unfoldable pub partitions : (String → String → Bool) → String → Tx (List StoredPartition)
unfolding partitions_of
partitions collation deployment = query (partitions_of collation deployment)
