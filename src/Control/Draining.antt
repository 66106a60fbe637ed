-- ===== src/Control/Draining.antt =====
-- What draining a deployment does to its partitions.
use ptf.Prelude.{
  ◌≡◌, refl, ap, ◌∙◌, String, Bool, true, some, List, [], ◌∷◌, arith, All, All-implies, All-both,
  eq_refl,
}
use ptf.Prelude.Table.{
  find_where, update_where, exists_where, count_where, count-pos_of_find, exists_of_find,
  find_of_exists, order_by, select_where, count-order_by, count-select, All-order_by, All-select,
  All-where, exists-order_by, exists-select,
}
use ptf.Core.Enums.{DeploymentStatus}
use ptf.Core.Errors.{ok}
use ptf.State.Db.{Db, PartitionRow}
use ptf.State.Tx.{bind-ok, ◌>>=◌}
use ptf.State.Continuous.Sync.{has_partition, in_deployment, partitions}
use ptf.State.Continuous.Deployments.{
  has_deployment_id, set_deployment_status, transition_deployment,
}
use ptf.State.Continuous.Exclusion.{IsKeyed}
use ptf.Control.Admin.{release_all, drain}
use ptf.Control.Releasing.{freed, named, IsNamed, Here, release_all_lem}

module _ (d : String) where
  IsKeyed-Here :
      (rows : List PartitionRow)
      → IsKeyed rows
      → All (λ r. in_deployment d r ≡ true → Here d rows r) rows
  unfolding find_where count_where
  IsKeyed-Here [] keyed = tt
  IsKeyed-Here (r ∷ rs) keyed = (
    λ inside. ground (arith, inside, eq_refl r.partition_id),
    All-implies (λ s. in_deployment d s ≡ true → Here d rs s)
        (λ s. in_deployment d s ≡ true → Here d (r ∷ rs) s)
        (λ s h inside. ground (
          arith,
          keyed d s.partition_id,
          h inside,
          count-pos_of_find (has_partition d s.partition_id) rs s (h inside),
        ))
        rs (IsKeyed-Here rs (λ e id. ground (arith, keyed e id))),
  )

  -- the rows that `drain` reads
  abbrev pub read_rows : (String → String → Bool) → List PartitionRow → List PartitionRow
  read_rows collation rows =
      order_by (λ a b. collation a.partition_id b.partition_id)
        (select_where (in_deployment d) rows)

  read_rows-IsNamed :
      (collation : String → String → Bool) (rows : List PartitionRow)
      → IsKeyed rows
      → IsNamed d (read_rows collation rows)
  read_rows-IsNamed collation rows keyed id = omega (
    arith,
    keyed d id,
    count-order_by (λ a b. collation a.partition_id b.partition_id) (named d id)
        (select_where (in_deployment d) rows),
    count-select (in_deployment d) (named d id) rows,
  )

  read_rows-Here :
      (collation : String → String → Bool) (rows : List PartitionRow)
      → IsKeyed rows
      → All (Here d rows) (read_rows collation rows)
  read_rows-Here collation rows keyed =
      All-order_by (Here d rows) (λ a b. collation a.partition_id b.partition_id)
        (select_where (in_deployment d) rows)
        (All-implies (λ r. (in_deployment d r ≡ true → Here d rows r) × (in_deployment d r ≡ true))
          (Here d rows) (λ r h. h.0 h.1) (select_where (in_deployment d) rows)
          (All-both (λ r. in_deployment d r ≡ true → Here d rows r) (λ r. in_deployment d r ≡ true)
            (select_where (in_deployment d) rows)
            (All-select (λ r. in_deployment d r ≡ true → Here d rows r) (in_deployment d) rows
              (IsKeyed-Here rows keyed))
            (All-where (λ r. in_deployment d r ≡ true) (in_deployment d) rows (λ r h. h))))

  read_rows-exists :
      (collation : String → String → Bool) (rows : List PartitionRow) (id : String)
      (x : PartitionRow)
      → find_where (has_partition d id) rows ≡ some x
      → exists_where (named d id) (read_rows collation rows) ≡ true
  read_rows-exists collation rows id x found =
      exists-order_by (λ a b. collation a.partition_id b.partition_id) (named d id)
        (select_where (in_deployment d) rows)
      ∙ (exists-select (in_deployment d) (named d id) rows
          ∙ exists_of_find (has_partition d id) rows x found)

  transition-runs :
      (db : Db) (status : DeploymentStatus)
      → exists_where (has_deployment_id d) db.deployments ≡ true
      → transition_deployment d status db ≡ (
        ok tt,
        record db {
          deployments =
              update_where (has_deployment_id d) (set_deployment_status status) db.deployments;
        },
      )
  unfolding transition_deployment
  transition-runs db status known =
      let (r, found) = find_of_exists (has_deployment_id d) db.deployments known in
      ground (arith, count-pos_of_find (has_deployment_id d) db.deployments r found)

  -- Draining a known deployment succeeds, and frees every partition of it at once: one that has an
  -- owner is unassigned and without a lease afterwards, and the others stay as they are.
  pub drain_lem :
      (collation : String → String → Bool) (db : Db) (id : String) (x : PartitionRow)
      → IsKeyed db.partitions
      → exists_where (has_deployment_id d) db.deployments ≡ true
      → find_where (has_partition d id) db.partitions ≡ some x
      → let (answer, after) = drain collation d db in
        (answer ≡ ok tt) × (find_where (has_partition d id) after.partitions ≡ some (freed x))
  unfolding drain partitions
  drain_lem collation db id x keyed known found =
      let rows = db.partitions in
      let status = DeploymentStatus.draining in
      let db1 : Db = record db {
        deployments =
            update_where (has_deployment_id d) (set_deployment_status status) db.deployments;
      } in
      let loop =
        release_all_lem d (read_rows collation rows) db1 (read_rows-IsNamed collation rows keyed)
          (read_rows-Here collation rows keyed) in
      let run =
        bind-ok (transition_deployment d status) (λ _. partitions collation d >>= release_all d) db
          tt db1 (transition-runs db status known)
        ∙ loop.runs in
      (
        ap (λ r. r.0) run,
        ap (λ r. find_where (has_partition d id) r.1.partitions) run
            ∙ (loop.finds id x found ∙ rw (read_rows-exists collation rows id x found) refl),
      )
