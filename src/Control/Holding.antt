-- ===== src/Control/Holding.antt =====
-- The visits of the reconciler, seen from a partition that a live lease holds.
use ptf.Prelude.{
  ℕ, ◌+◌, ◌≤◌, ◌≡◌, refl, ap, ◌∙◌, String, Bool, true, ◌&&◌, some, List, [], ◌∷◌, arith, inl, inr,
  Bool-cases, eq_iff,
}
use ptf.Prelude.Table.{find_where, exists_where, find-update}
use ptf.Core.Enums.{is_inactive}
use ptf.State.Db.{Db, PartitionRow, seconds}
use ptf.State.Tx.{pure}
use ptf.State.Steps.{Steps, Steps-bind}
use ptf.State.Continuous.Deployments.{has_deployment_id}
use ptf.State.Continuous.Sync.{StoredPartition, has_partition}
use ptf.State.Continuous.Lease.{acquire_lease, acquire_row, may_acquire}
use ptf.State.Workers.{WorkerInstance}
use ptf.Control.Reconciler.{
  Load, least_loaded, needs_assign, Progress, record_lease, assign, visit, visit_all,
}

module _ (now : ℕ) (d id owner : String) where
  -- The partition is leased to `owner`, and the lease has not lapsed at `now`.
  pub record Holds (db : Db) : Type 0 where
    pub row : PartitionRow
    pub expiry : ℕ
    pub found : find_where (has_partition d id) db.partitions ≡ some row
    pub owned : row.owner_id ≡ some owner
    pub until : row.lease_expires_at ≡ some expiry
    pub runs : now ≤ expiry
    pub parent : exists_where (has_deployment_id d) db.deployments ≡ true

  abbrev pub Keeps : Db → Db → Type 0
  Keeps a b = Holds a → Holds b

  pub same_db : (db : Db) → Keeps db db
  same_db db h = h

  pub join_db : (a b c : Db) → Keeps a b → Keeps b c → Keeps a c
  join_db a b c f g h = g (f h)

  free_owner :
      (e q other : String) (r : PartitionRow) (t : ℕ)
      → r.owner_id ≡ some owner
      → r.lease_expires_at ≡ some t
      → now ≤ t
      → (has_partition e q r && may_acquire now other r) ≡ true
      → other ≡ owner
  free_owner e q other r t owned until runs free = ground (arith, eq_iff owner other)

  acquire_lease-Keeps : (e q other : String) (n : ℕ) → Steps Keeps (acquire_lease now e q other n)
  unfolding acquire_lease
  acquire_lease-Keeps e q other n db h =
      let test : PartitionRow → Bool = λ r. has_partition e q r && may_acquire now other r in
      let shown =
        find-update test (has_partition d id) (acquire_row now other n) db.partitions (λ x. refl) in
      elim (Bool-cases (test h.row)) [
        | inl taken ↦ record {
          row = acquire_row now other n h.row;
          expiry = now + seconds n;
          found = shown ∙ rw (h.found, taken) refl;
          owned = ap some (free_owner e q other h.row h.expiry h.owned h.until h.runs taken);
          until = refl;
          runs = omega arith;
          parent = h.parent;
        }
        | inr refused ↦ record {
          row = h.row;
          expiry = h.expiry;
          found = shown ∙ rw (h.found, refused) refl;
          owned = h.owned;
          until = h.until;
          runs = h.runs;
          parent = h.parent;
        }
      ]

  assign-Keeps :
      (e : String) (n : ℕ) (p : StoredPartition) (s : Progress) (load : Load)
      → Steps Keeps (assign now e n p s load)
  assign-Keeps e n p s [] db h = h
  assign-Keeps e n p s (x ∷ xs) db h =
      let worker = (least_loaded x xs).0 in
      Steps-bind Keeps same_db join_db (acquire_lease now e p.partition_id worker n)
        (λ lease. pure (record_lease p worker s lease))
        (acquire_lease-Keeps e p.partition_id worker n) (λ lease db h. h) db h

  visit-Keeps :
      (clock : ℕ) (e : String) (n : ℕ) (workers : List WorkerInstance) (p : StoredPartition)
      (s : Progress)
      → Steps Keeps (visit now clock e n workers p s)
  unfolding visit
  visit-Keeps clock e n workers p s db h = elim (Bool-cases (is_inactive p.status)) [
    | inl retired ↦ rw retired h
    | inr kept ↦ elim (Bool-cases (needs_assign clock workers p)) [
      | inl needs ↦ rw (kept, needs) (assign-Keeps e n p s s.load db h)
      | inr settled ↦ rw (kept, settled) h
    ]
  ]

  pub visit_all-Keeps :
      (clock : ℕ) (e : String) (n : ℕ) (workers : List WorkerInstance) (ps : List StoredPartition)
      (s : Progress)
      → Steps Keeps (visit_all now clock e n workers ps s)
  unfolding visit_all
  visit_all-Keeps clock e n workers [] s db h = h
  visit_all-Keeps clock e n workers (p ∷ ps) s db h =
      Steps-bind Keeps same_db join_db (visit now clock e n workers p s)
        (λ s'. visit_all now clock e n workers ps s') (visit-Keeps clock e n workers p s)
        (λ s'. visit_all-Keeps clock e n workers ps s') db h
