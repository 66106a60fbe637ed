-- ===== src/Worker/Renewing.antt =====
-- src/distributed_runtime/worker/continuous.py: lemmas on the tasks that a tick lets go and on the
-- leases that it renews.
use ptf.Prelude.{
  ℕ, suc, ◌||◌, Bool, ◌≡◌, ◌⊎◌, refl, sym, ap, subst, String, true, false, ◌==◌, some, List, [],
  ◌∷◌, map, arith, nat_eq_iff, eq_refl, if◌then◌else◌, inl, inr, Bool-cases, All, All-implies,
}
use ptf.Prelude.Table.{exists_where, count_where}
use ptf.Core.Lifecycle.{CancellationSource, cancel, is_cancelled}
use ptf.Core.Shutdown.{cancelled_by_reason}
use ptf.State.Db.{Db}
use ptf.State.Continuous.Sync.{StoredPartition}
use ptf.State.Continuous.Lease.{renew_lease}
use ptf.Worker.Supervisor.{
  RunningPartition, Entry, has_key, let_go, renew_all, cancelled, is_renewed,
}
use ptf.Worker.Supervised.{is_owned, IsBacked}

cancel-is_cancelled :
    (now : ℕ) (text : String) (source : CancellationSource)
    → (text == "") ≡ false
    → is_cancelled now (cancel now text source).1 ≡ true
unfolding cancel
cancel-is_cancelled now text source given = elim (Bool-cases (is_cancelled now source)) [
  | inl already ↦ ground (arith, given, already)
  | inr before ↦
      let told : CancellationSource = record source {
        scope = record (source.scope) { own_reason = some text };
      } in
      ground (arith, given, before, (cancelled_by_reason now text told refl).0)
]

-- a task that is done, or that was told to stop and whose source is cancelled
abbrev pub IsStopped : ℕ → RunningPartition → Type 0
IsStopped now r =
    (r.is_done ≡ true) ⊎ ((r.told_to_stop ≡ true) × (is_cancelled now r.cancellation ≡ true))

let_go-busy :
    (now : ℕ) (id : String) (r : RunningPartition)
    → r.is_done ≡ false
    → let_go now (id, r) ≡ record (cancelled now "ownership lost" r) { told_to_stop = true }
unfolding let_go
let_go-busy now id r busy =
    ap (λ b. if b then r else (record (cancelled now "ownership lost" r) { told_to_stop = true }))
      busy

let_go-done :
    (now : ℕ) (id : String) (r : RunningPartition) → r.is_done ≡ true → let_go now (id, r) ≡ r
unfolding let_go
let_go-done now id r done =
    ap (λ b. if b then r else (record (cancelled now "ownership lost" r) { told_to_stop = true }))
      done

pub let_go-IsStopped : (now : ℕ) (e : Entry) → IsStopped now (let_go now e)
let_go-IsStopped now (id, r) = elim (Bool-cases (r.is_done)) [
  | inl done ↦ subst (IsStopped now) (sym (let_go-done now id r done)) (inl done)
  | inr busy ↦
      subst (IsStopped now) (sym (let_go-busy now id r busy))
        (inr (refl, cancel-is_cancelled now "ownership lost" r.cancellation refl))
]

pub All-map {ℓ} :
    {A B : Type 0} (P : B → Type ℓ) (f : A → B)
    → ((a : A) → P (f a))
    → (xs : List A) → All P (map f xs)
All-map P f h [] = tt
All-map P f h (x ∷ xs) = (h x, All-map P f h xs)

-- a row is owned by itself
pub owned_self :
    (mine : List StoredPartition)
    → All (λ p. is_owned mine p.partition_id p.fencing_token ≡ true) mine
unfolding exists_where
owned_self [] = tt
owned_self (p ∷ ps) = (
  ground (arith, eq_refl p.partition_id, nat_eq_iff p.fencing_token p.fencing_token),
  All-implies (λ q. is_owned ps q.partition_id q.fencing_token ≡ true)
      (λ q. is_owned (p ∷ ps) q.partition_id q.fencing_token ≡ true) (λ q h. ground (arith, h)) ps
      (owned_self ps),
)

module _ (monotonic now lease_seconds : ℕ) where
  abbrev renewed : List Entry → Db → List Entry
  renewed es db = (renew_all monotonic now lease_seconds es db).0

  pub renew_all-count :
      (id : String) (es : List Entry) (db : Db)
      → count_where (has_key id) (renewed es db) ≡ count_where (has_key id) es
  unfolding renew_all count_where
  renew_all-count id [] db = refl
  renew_all-count id ((k, r) ∷ es) db =
      ap (λ (n : ℕ). if k == id then suc n else n)
        (renew_all-count id es (renew_lease now r.lease lease_seconds db).1)

  pub renew_all-exists :
      (id : String) (es : List Entry) (db : Db)
      → exists_where (has_key id) (renewed es db) ≡ exists_where (has_key id) es
  unfolding renew_all exists_where
  renew_all-exists id [] db = refl
  renew_all-exists id ((k, r) ∷ es) db =
      ap (λ b. k == id || b) (renew_all-exists id es (renew_lease now r.lease lease_seconds db).1)

  abbrev renewed_test : RunningPartition → Db → Bool
  renewed_test r db = is_renewed (renew_lease now r.lease lease_seconds db).0

  pub renewed-IsBacked :
      (deployment instance : String) (mine : List StoredPartition) (es : List Entry) (db : Db)
      → All (IsBacked deployment instance mine) es
      → All (IsBacked deployment instance mine) (renewed es db)
  unfolding renew_all
  renewed-IsBacked deployment instance mine [] db h = tt
  renewed-IsBacked deployment instance mine ((k, r) ∷ es) db h =
      (same_lease (renewed_test r db) r h.0, renewed-IsBacked deployment instance mine es _ h.1)
    where
      same_lease :
          (b : Bool) (r : RunningPartition)
          → IsBacked deployment instance mine (k, r)
          → IsBacked deployment instance mine
              (k, if b then r else cancelled monotonic "lease renewal rejected" r)
      same_lease true r h = h
      same_lease false r h = record {
        owned = h.owned;
        of_deployment = h.of_deployment;
        of_partition = h.of_partition;
        of_instance = h.of_instance;
      }
