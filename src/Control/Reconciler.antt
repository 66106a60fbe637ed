-- ===== src/Control/Reconciler.antt =====
-- Assignment of partitions: `Reconciler` of src/distributed_runtime/control/reconciler.py. `now` is
-- the time of the database's statements, `clock` that of `datetime.now(UTC)`.
use Prim.Native.String.{compare}
use text.Mathlib.Text.{is_lt}
use ptf.Prelude.{
  ℕ, suc, ◌+◌, String, Bool, true, false, ◌==◌, ◌&&◌, ◌||◌, Option, none, some, List, [], ◌∷◌, map,
  ltb, nat_eq, not, if◌then◌else◌, is_some,
}
use ptf.Prelude.Table.{count_where, exists_where}
use ptf.Core.Enums.{is_active_deployment, is_inactive, is_unassigned, is_held}
use ptf.Core.Errors.{lookup_error}
use ptf.Continuous.Contracts.{Partition, LeaseHandle}
use ptf.State.Tx.{Tx, pure, or_raise, ◌>>=◌}
use ptf.State.Continuous.Deployments.{get_deployment}
use ptf.State.Continuous.Sync.{StoredPartition, sync_partitions}
use ptf.State.Continuous.Lease.{acquire_lease}
use ptf.State.Workers.{WorkerInstance, mark_stale_dead, list_active}

-- `class ReconcileResult`
pub record ReconcileResult : Type 0 where
  pub assigned : ℕ
  pub reclaimed : ℕ
  pub deactivated : ℕ
  pub dead_workers : ℕ

-- the dictionary `load`, in the order of its keys
abbrev pub Load : Type 0
Load = List (String × ℕ)

-- `load[owner] += weight`
unfoldable pub add_load : String → ℕ → Load → Load
add_load owner weight [] = []
add_load owner weight ((id, n) ∷ rest) =
    (if id == owner then (id, n + weight) else (id, n)) ∷ add_load owner weight rest

-- the owner's weight, if the partition counts
abbrev pub count_load : StoredPartition → Option String → Load → Load
count_load p none load = load
count_load p (some owner) load = if is_held p.status then add_load owner p.weight load else load

-- the loop of `_load_map`
unfoldable pub count_loads : List StoredPartition → Load → Load
unfolding add_load
count_loads [] load = load
count_loads (p ∷ ps) load = count_loads ps (count_load p p.owner_id load)

-- `_load_map`
unfoldable pub load_map : List StoredPartition → List WorkerInstance → Load
unfolding count_loads
load_map ps workers = count_loads ps (map (λ w. (w.instance_id, 0)) workers)

-- `(load[i], str(i))` of `a` is less than that of `b`
abbrev pub lighter : String × ℕ → String × ℕ → Bool
lighter a b = ltb a.1 b.1 || (nat_eq a.1 b.1 && is_lt (compare a.0 b.0))

-- `min(load, key=...)`: the first of the least
unfoldable pub least_loaded : String × ℕ → Load → String × ℕ
least_loaded best [] = best
least_loaded best (x ∷ xs) = least_loaded (if lighter x best then x else best) xs

-- `needs_assign`
abbrev pub needs_assign : ℕ → List WorkerInstance → StoredPartition → Bool
needs_assign clock workers p =
    is_unassigned p.status
    || (elim p.lease_expires_at [ none ↦ false | some t ↦ ltb t clock ] || elim p.owner_id [
      | none ↦ false
      | some owner ↦ not (exists_where (λ w. w.instance_id == owner) workers)
    ])

-- the counters and the load map of the loop
pub record Progress : Type 0 where
  pub load : Load
  pub assigned : ℕ
  pub reclaimed : ℕ

-- the branch `if lease is not None`
abbrev pub record_lease : StoredPartition → String → Progress → Option LeaseHandle → Progress
record_lease p owner s none = s
record_lease p owner s (some lease) = record {
  load = add_load owner p.weight s.load;
  assigned = if is_some p.owner_id then s.assigned else suc s.assigned;
  reclaimed = if is_some p.owner_id then suc s.reclaimed else s.reclaimed;
}

-- the end of the loop's body, for a load map that is not empty
abbrev pub assign : ℕ → String → ℕ → StoredPartition → Progress → Load → Tx Progress
assign now d lease_seconds p s [] = pure s
assign now d lease_seconds p s (x ∷ xs) = do
  let owner = (least_loaded x xs).0
  lease ← acquire_lease now d p.partition_id owner lease_seconds
  pure (record_lease p owner s lease)

-- the loop's body
unfoldable pub visit :
    ℕ → ℕ → String → ℕ → List WorkerInstance → StoredPartition → Progress → Tx Progress
unfolding add_load least_loaded
visit now clock d lease_seconds workers p s =
    if is_inactive p.status
    then pure s
    else if needs_assign clock workers p
    then assign now d lease_seconds p s s.load
    else pure s

unfoldable pub visit_all :
    ℕ → ℕ → String → ℕ → List WorkerInstance → List StoredPartition → Progress → Tx Progress
unfolding visit
visit_all now clock d lease_seconds workers [] s = pure s
visit_all now clock d lease_seconds workers (p ∷ ps) s = do
  s' ← visit now clock d lease_seconds workers p s
  visit_all now clock d lease_seconds workers ps s'

abbrev pub is_nonempty : List WorkerInstance → Bool
is_nonempty [] = false
is_nonempty (_ ∷ _) = true

abbrev pub result_of : ℕ → List StoredPartition → Progress → ReconcileResult
result_of dead stored s = record {
  assigned = s.assigned;
  reclaimed = s.reclaimed;
  deactivated = count_where (λ p. is_inactive p.status) stored;
  dead_workers = dead;
}

abbrev pub start : List StoredPartition → List WorkerInstance → Progress
start stored workers = record { load = load_map stored workers; assigned = 0; reclaimed = 0 }

-- `if deployment.status is DeploymentStatus.ACTIVE and active_workers:`
unfoldable pub place :
    ℕ → ℕ → ℕ → String → Bool → List StoredPartition → List WorkerInstance → Tx Progress
unfolding load_map visit_all
place now clock lease_seconds d active stored workers =
    if active && is_nonempty workers
    then visit_all now clock d lease_seconds workers stored (start stored workers)
    else pure (start stored workers)

-- `reconcile` from the sync of the partitions on
unfoldable pub converge :
    (String → String → Bool) → ℕ → ℕ → ℕ → String → Bool → List Partition → ℕ → Tx ReconcileResult
unfolding place
converge collation now clock lease_seconds d active desired dead = do
  stored ← sync_partitions collation d desired
  workers ← list_active collation
  s ← place now clock lease_seconds d active stored workers
  pure (result_of dead stored s)

-- `reconcile`
unfoldable pub reconcile :
    (String → String → Bool) → ℕ → ℕ → ℕ → ℕ → String → List Partition → Tx ReconcileResult
unfolding converge
reconcile collation now clock lease_seconds stale_after d desired = do
  found ← get_deployment d
  deployment ← or_raise found (lookup_error "unknown deployment")
  dead ← mark_stale_dead now stale_after
  converge collation now clock lease_seconds d (is_active_deployment deployment.status) desired dead
