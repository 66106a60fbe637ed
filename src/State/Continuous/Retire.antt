-- ===== src/State/Continuous/Retire.antt =====
-- What `sync_partitions` leaves in the table.
use ptf.Prelude.{
  ◌≡◌, refl, ap, ◌∙◌, String, Bool, true, false, some, List, [], ◌∷◌, ◌++◌, arith, inl, inr,
  Bool-cases, ◌==◌, eq_iff,
}
use ptf.Prelude.Table.{
  find_where, update_where, exists_where, find-update, find-append, find_satisfies,
}
use ptf.Core.Errors.{ok, err, Result}
use ptf.Continuous.Contracts.{Partition}
use ptf.State.Db.{Db, PartitionRow}
use ptf.State.Tx.{Tx, bind-ok, pure, query, ◌>>◌}
use ptf.State.Continuous.Deployments.{has_deployment_id}
use ptf.State.Continuous.Sync.{
  has_partition, refresh_row, unassigned_row, upsert_partition, upsert_partitions, is_missing,
  retire_row, retire_missing, partitions_of, sync_partitions, StoredPartition,
}

-- A row that is kept holds the lease that it held.
pub record SameLease (r s : PartitionRow) : Type 0 where
  pub owner : s.owner_id ≡ r.owner_id
  pub token : s.fencing_token ≡ r.fencing_token
  pub expiry : s.lease_expires_at ≡ r.lease_expires_at

-- the rows after the upserts, where a row keeps its key and its lease
abbrev Kept : List PartitionRow → List PartitionRow → Type 0
Kept xs ys =
    (d id : String) (r : PartitionRow)
    → find_where (has_partition d id) xs ≡ some r
    → (s : PartitionRow) × (find_where (has_partition d id) ys ≡ some s) × SameLease r s

refresh-Kept :
    (test : PartitionRow → Bool) (p : Partition) (xs : List PartitionRow)
    → Kept xs (update_where test (refresh_row p) xs)
refresh-Kept test p xs d id r found = elim (Bool-cases (test r)) [
  | inl hit ↦ (
    refresh_row p r,
    rw (find-update test (has_partition d id) (refresh_row p) xs (λ x. refl), found) (rw hit),
    record { owner = refl; token = refl; expiry = refl },
  )
  | inr miss ↦ (
    r,
    rw (find-update test (has_partition d id) (refresh_row p) xs (λ x. refl), found) (rw miss),
    record { owner = refl; token = refl; expiry = refl },
  )
]

-- an operation that succeeds, writes partitions alone and keeps the leases
abbrev Upserts : Tx (Unit {0}) → Db → Type 0
Upserts m db =
    (ys : List PartitionRow) × (m db ≡ (ok tt, record db { partitions = ys }))
    × Kept db.partitions ys

upsert_partition_lem :
    (d : String) (p : Partition) (db : Db)
    → exists_where (has_deployment_id d) db.deployments ≡ true
    → Upserts (upsert_partition d p) db
unfolding upsert_partition
upsert_partition_lem d p db parent =
    elim (Bool-cases (exists_where (has_partition d p.partition_id) db.partitions)) [
      | inl known ↦ (
        update_where (has_partition d p.partition_id) (refresh_row p) db.partitions,
        rw known refl,
        refresh-Kept (has_partition d p.partition_id) p db.partitions,
      )
      | inr fresh ↦ (
        db.partitions ++ unassigned_row d p ∷ [],
        rw (fresh, parent) refl,
        λ e id r found. (
          r,
          find-append (has_partition e id) db.partitions (unassigned_row d p) r found,
          record { owner = refl; token = refl; expiry = refl },
        ),
      )
    ]

upsert_partitions_lem :
    (d : String) (ps : List Partition) (db : Db)
    → exists_where (has_deployment_id d) db.deployments ≡ true
    → Upserts (upsert_partitions d ps) db
unfolding upsert_partitions
upsert_partitions_lem d [] db parent = (
  db.partitions,
  refl,
  λ e id r found. (r, found, record { owner = refl; token = refl; expiry = refl }),
)
upsert_partitions_lem d (p ∷ ps) db parent =
    let (ys, e, k) = upsert_partition_lem d p db parent in
    let (zs, e', k') = upsert_partitions_lem d ps (record db { partitions = ys }) parent in
    (
      zs,
      bind-ok (upsert_partition d p) (λ _. upsert_partitions d ps) db tt
            (record db { partitions = ys }) e
          ∙ e',
      λ f id r found.
          let (s, g, l) = k f id r found in
          let (t, g', l') = k' f id s g in
          (
            t,
            g',
            record {
              owner = l'.owner ∙ l.owner;
              token = l'.token ∙ l.token;
              expiry = l'.expiry ∙ l.expiry;
            },
          ),
    )

abbrev retire_and_read :
    (String → String → Bool) → String → List Partition → Tx (List StoredPartition)
retire_and_read collation d ps =
    (λ db. pure tt (retire_missing d ps db)) >> query (partitions_of collation d)

sync_lem :
    (collation : String → String → Bool) (d : String) (ps : List Partition) (db after : Db)
    → upsert_partitions d ps db ≡ (ok tt, after)
    → sync_partitions collation d ps db
      ≡ (ok (partitions_of collation d (retire_missing d ps after)), retire_missing d ps after)
unfolding sync_partitions
sync_lem collation d ps db after e =
    ap
      (λ (r : Result (List StoredPartition) × Db).
        elim r.0 as (λ _. Result (List StoredPartition) × Db) [
          | ok a ↦ (ok a, r.1)
          | err x ↦ (err x, db)
        ])
      (bind-ok (upsert_partitions d ps) (λ _. retire_and_read collation d ps) db tt after e)

pub sync_partitions-deployments :
    (collation : String → String → Bool) (d : String) (p : Partition) (ps : List Partition)
    (db : Db)
    → exists_where (has_deployment_id d) db.deployments ≡ true
    → (sync_partitions collation d (p ∷ ps) db).1.deployments ≡ db.deployments
unfolding retire_missing
sync_partitions-deployments collation d p ps db parent =
    let (ys, e, k) = upsert_partitions_lem d (p ∷ ps) db parent in
    ap (λ r. r.1.deployments) (sync_lem collation d (p ∷ ps) db (record db { partitions = ys }) e)

-- An empty discovery retires nothing: the sync of no partitions changes nothing.
pub sync_partitions_empty :
    (collation : String → String → Bool) (d : String) (db : Db)
    → sync_partitions collation d [] db ≡ (ok (partitions_of collation d db), db)
unfolding sync_partitions upsert_partitions retire_missing
sync_partitions_empty collation d db = refl

find-has_partition :
    (d id : String) (xs : List PartitionRow) (s : PartitionRow)
    → find_where (has_partition d id) xs ≡ some s
    → (s.deployment_id ≡ d) × (s.partition_id ≡ id)
find-has_partition d id xs s h = ground (
  arith,
  find_satisfies (has_partition d id) xs s h,
  eq_iff s.deployment_id d,
  eq_iff s.partition_id id,
)

-- A partition that is discovered again keeps its owner, token and expiry.
pub sync_partitions-keeps :
    (collation : String → String → Bool) (d : String) (p : Partition) (ps : List Partition)
    (db : Db) (id : String) (r : PartitionRow)
    → exists_where (has_deployment_id d) db.deployments ≡ true
    → find_where (has_partition d id) db.partitions ≡ some r
    → exists_where (λ q. q.partition_id == id) (p ∷ ps) ≡ true
    → (s : PartitionRow) × (find_where
          (has_partition d id)
          (sync_partitions collation d (p ∷ ps) db).1.partitions
        ≡ some s)
      × SameLease r s
unfolding retire_missing
sync_partitions-keeps collation d p ps db id r parent found desired =
    let (ys, e, k) = upsert_partitions_lem d (p ∷ ps) db parent in
    let (s, g, l) = k d id r found in
    (
      s,
      rw (sync_lem collation d (p ∷ ps) db (record db { partitions = ys }) e) (
          rw (find-update (is_missing d (p ∷ ps)) (has_partition d id) retire_row ys (λ x. refl), g)
            (rw (kept s (find-has_partition d id ys s g)) refl)),
      l,
    )
  where
    kept :
        (s : PartitionRow)
        → (s.deployment_id ≡ d) × (s.partition_id ≡ id)
        → is_missing d (p ∷ ps) s ≡ false
    kept s here = rw here.1 ground (arith, desired)
