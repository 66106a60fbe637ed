-- ===== src/Control/Releasing.antt =====
-- The loop of `ContinuousAdmin.drain`, which releases the partitions one by one.
use ptf.Prelude.{
  ◌≤◌, ◌≡◌, refl, sym, ap, ◌∙◌, subst, String, Bool, true, false, ◌==◌, ◌&&◌, Option, none, some,
  List, [], ◌∷◌, map, arith, nat_eq, nat_eq_iff, if◌then◌else◌, inl, inr, Bool-cases, All, eq_iff,
  eq_refl, is_some,
}
use ptf.Prelude.Table.{
  find_where, update_where, exists_where, count_where, find-update, find_satisfies, count-update,
  exists-zero_of_count,
}
use ptf.Core.Errors.{ok}
use ptf.Core.Enums.{PartitionStatus}
use ptf.State.Db.{Db, PartitionRow}
use ptf.State.Tx.{Tx, bind-ok}
use ptf.State.Continuous.Sync.{has_partition, partition_from_row}
use ptf.State.Continuous.Lease.{release_partition, release_row}
use ptf.State.Continuous.Exclusion.{IsKeyed}
use ptf.Control.Admin.{release_owned, release_all}

-- the row of a partition that the loop has passed: without owner and lease and unassigned, if it had
-- an owner, and nothing else changed
abbrev pub freed : PartitionRow → PartitionRow
freed r =
    if is_some r.owner_id
    then (record r {
      owner_id = none;
      lease_expires_at = none;
      status = PartitionStatus.unassigned;
    })
    else r

module _ (d : String) where
  abbrev pub named : String → PartitionRow → Bool
  named id r = r.partition_id == id

  -- how a step or a loop on the partitions named by `hit` ends
  pub record Frees (m : Tx (Unit {0})) (hit : String → Bool) (db : Db) : Type 0 where
    rows : List PartitionRow
    pub runs : m db ≡ (ok tt, record db { partitions = rows })
    keyed : IsKeyed db.partitions → IsKeyed rows
    pub finds :
        (id : String) (x : PartitionRow)
        → find_where (has_partition d id) db.partitions ≡ some x
        → find_where (has_partition d id) rows ≡ some (if hit id then freed x else x)

  same_row :
      (id : String) (rows : List PartitionRow) (r x : PartitionRow)
      → find_where (has_partition d r.partition_id) rows ≡ some r
      → find_where (has_partition d id) rows ≡ some x
      → (r.partition_id == id) ≡ true
      → r ≡ x
  same_row id rows r x found here same =
      let eqn : r.partition_id ≡ id = (eq_iff r.partition_id id).0 same in
      let found_r : find_where (has_partition d id) rows ≡ some r =
        subst (λ k. find_where (has_partition d k) rows ≡ some r) eqn found in
      cc

  freed-none : (x : PartitionRow) → x.owner_id ≡ none → freed x ≡ x
  freed-none x e = ground arith

  freed-some : (x : PartitionRow) (o : String) → x.owner_id ≡ some o → freed x ≡ release_row x
  freed-some x o e = ground arith

  release_owner :
      (r : PartitionRow) (db : Db) (owner : Option String)
      → r.owner_id ≡ owner
      → find_where (has_partition d r.partition_id) db.partitions ≡ some r
      → Frees (release_owned d (partition_from_row r) owner) (λ id. r.partition_id == id) db
  unfolding release_partition
  release_owner r db none e found = record {
    rows = db.partitions;
    runs = refl;
    keyed = λ k. k;
    finds = λ id x here. elim (Bool-cases (r.partition_id == id)) [
      | inl same ↦
          let eqn = same_row id db.partitions r x found here same in
          here
          ∙ rw same
              (ap some (sym (freed-none x (subst (λ (y : PartitionRow). y.owner_id ≡ none) eqn e))))
      | inr other ↦ here ∙ rw other refl
    ];
  }
  release_owner r db (some o) e found =
      let test : PartitionRow → Bool =
        λ x. has_partition d r.partition_id x && nat_eq x.fencing_token r.fencing_token in
      record {
        rows = update_where test release_row db.partitions;
        runs = refl;
        keyed = λ k f id.
            rw (count-update test (has_partition f id) release_row db.partitions (λ x _. refl))
              (k f id);
        finds = λ id x here.
            let shown =
              find-update test (has_partition d id) release_row db.partitions (λ y. refl) in
            let at_x = find_satisfies (has_partition d id) db.partitions x here in
            elim (Bool-cases (r.partition_id == id)) [
              | inl same ↦
                  let eqn = same_row id db.partitions r x found here same in
                  let hit : test x ≡ true =
                    subst (λ y. test y ≡ true) eqn
                      (ground (
                        arith,
                        find_satisfies (has_partition d r.partition_id) db.partitions r found,
                        nat_eq_iff r.fencing_token r.fencing_token,
                      )) in
                  shown
                  ∙ rw (here, hit, same)
                      (ap some (
                        sym (
                          freed-some x o
                            (subst (λ (y : PartitionRow). y.owner_id ≡ some o) eqn e))))
              | inr other ↦
                  let miss : test x ≡ false = ground (
                    arith,
                    at_x,
                    other,
                    eq_iff x.partition_id r.partition_id,
                    eq_iff r.partition_id id,
                    eq_iff x.partition_id id,
                  ) in
                  shown ∙ rw (here, miss, other) refl
            ];
      }

  abbrev pub IsNamed : List PartitionRow → Type 0
  IsNamed rs = (id : String) → count_where (named id) rs ≤ 1

  abbrev pub Here : List PartitionRow → PartitionRow → Type 0
  Here rows r = find_where (has_partition d r.partition_id) rows ≡ some r

  IsNamed-tail : (r : PartitionRow) (rs : List PartitionRow) → IsNamed (r ∷ rs) → IsNamed rs
  unfolding count_where
  IsNamed-tail r rs once id = ground (arith, once id)

  IsNamed-head :
      (r : PartitionRow) (rs : List PartitionRow)
      → IsNamed (r ∷ rs)
      → count_where (named r.partition_id) rs ≡ 0
  unfolding count_where
  IsNamed-head r rs once = ground (arith, once r.partition_id, eq_refl r.partition_id)

  -- the rows still to come are not touched by a step
  Here-later :
      (r : PartitionRow) (rs rows rows' : List PartitionRow)
      → count_where (named r.partition_id) rs ≡ 0
      → ((id : String) (x : PartitionRow)
          → find_where (has_partition d id) rows ≡ some x
          → find_where (has_partition d id) rows'
            ≡ some (if r.partition_id == id then freed x else x))
      → All (Here rows) rs
      → All (Here rows') rs
  unfolding count_where
  Here-later r [] rows rows' none_left finds here = tt
  Here-later r (s ∷ rs) rows rows' none_left finds here =
      let apart : (r.partition_id == s.partition_id) ≡ false = ground (
        arith,
        none_left,
        eq_iff r.partition_id s.partition_id,
        eq_iff s.partition_id r.partition_id,
      ) in
      (
        finds s.partition_id s here.0 ∙ rw apart refl,
        Here-later r rs rows rows' (ground (arith, none_left)) finds here.1,
      )

  pub release_all_lem :
      (rs : List PartitionRow) (db : Db)
      → IsNamed rs
      → All (Here db.partitions) rs
      → Frees (release_all d (map partition_from_row rs)) (λ id. exists_where (named id) rs) db
  unfolding release_all exists_where
  release_all_lem [] db once here = record {
    rows = db.partitions;
    runs = refl;
    keyed = λ k. k;
    finds = λ id x f. f;
  }
  release_all_lem (r ∷ rs) db once here =
      let step = release_owner r db r.owner_id refl here.0 in
      let db1 : Db = record db { partitions = step.rows } in
      let rest =
        release_all_lem rs db1 (IsNamed-tail r rs once)
          (Here-later r rs db.partitions step.rows (IsNamed-head r rs once) step.finds here.1) in
      record {
        rows = rest.rows;
        runs =
            bind-ok (release_owned d (partition_from_row r) r.owner_id)
              (λ _. release_all d (map partition_from_row rs)) db tt db1 step.runs
            ∙ rest.runs;
        keyed = λ k. rest.keyed (step.keyed k);
        finds = λ id x f. elim (Bool-cases (r.partition_id == id)) [
          | inl same ↦
              let gone : exists_where (named id) rs ≡ false =
                subst (λ k. exists_where (named k) rs ≡ false) ((eq_iff r.partition_id id).0 same)
                  (exists-zero_of_count (named r.partition_id) rs (IsNamed-head r rs once)) in
              rest.finds id (freed x) (step.finds id x f ∙ rw same refl) ∙ rw (gone, same) refl
          | inr other ↦ rest.finds id x (step.finds id x f ∙ rw other refl) ∙ rw other refl
        ];
      }
