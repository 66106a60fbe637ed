-- ===== src/Worker/Reading.antt =====
-- src/distributed_runtime/worker/continuous.py: the rows that a tick of the supervisor reads.
use ptf.Prelude.{
  ℕ, ◌≡◌, refl, sym, ap, ◌∙◌, String, Bool, false, ◌==◌, ◌&&◌, Option, none, some, List, [], ◌∷◌,
  map, leb, nat_eq, nat_eq_iff, arith,
}
use ptf.Prelude.Table.{exists_where, select_where, order_by, exists-order_by, exists-select}
use ptf.Core.Errors.{Result, ok, err, Error, lookup_error}
use ptf.Core.Enums.{WorkloadMode}
use ptf.Registry.Workloads.{RuntimeRegistry, WorkloadRegistration, ContinuousRegistration, workload}
use ptf.State.Db.{Db, PartitionRow}
use ptf.State.Tx.{Tx, pure, lift, or_raise, bind-inv, ◌>>=◌}
use ptf.State.Continuous.Deployments.{StoredDeployment, get_deployment}
use ptf.State.Continuous.Sync.{
  StoredPartition, in_deployment, partition_from_row, partitions, partitions_of,
}
use ptf.Worker.Supervisor.{as_continuous, is_mine, owned_partitions}
use ptf.Worker.Supervised.{is_owned}

-- The row is that of the partition `id` of the deployment, the instance owns it, and it has the
-- fencing token `token`, which is that of a grant: at least 1.
abbrev pub is_held : String → String → String → ℕ → PartitionRow → Bool
is_held deployment instance id token r =
    (r.deployment_id == deployment && r.partition_id == id)
    && (elim r.owner_id [ none ↦ false | some o ↦ o == instance ]
        && (nat_eq r.fencing_token token && leb 1 token))

exists-map :
    {A B : Type 0} (f : A → B) (q : B → Bool) (xs : List A)
    → exists_where q (map f xs) ≡ exists_where (λ x. q (f x)) xs
unfolding exists_where
exists-map f q [] = refl
exists-map f q (x ∷ xs) = ground (arith, exists-map f q xs)

exists-same :
    {A : Type 0} (p q : A → Bool) (xs : List A)
    → ((x : A) → p x ≡ q x)
    → exists_where p xs ≡ exists_where q xs
unfolding exists_where
exists-same p q [] h = refl
exists-same p q (x ∷ xs) h = ground (arith, h x, exists-same p q xs h)

or_raise-reads : {A : Type 0} (o : Option A) (e : Error) (db : Db) → (or_raise o e db).1 ≡ db
or_raise-reads none e db = refl
or_raise-reads (some a) e db = refl

module _ (collation : String → String → Bool) (deployment instance : String) where
  abbrev has_token : String → ℕ → StoredPartition → Bool
  has_token id token p = p.partition_id == id && nat_eq p.fencing_token token

  is_held-mine :
      (id : String) (token : ℕ) (r : PartitionRow)
      → (in_deployment deployment r
          && (is_mine instance (partition_from_row r) && has_token id token (partition_from_row r)))
        ≡ is_held deployment instance id token r
  is_held-mine id token r = ground (arith, nat_eq_iff r.fencing_token token)

  -- the rows of this instance among those of the deployment
  select-is_held :
      (id : String) (token : ℕ) (db : Db)
      → is_owned (select_where (is_mine instance) (partitions_of collation deployment db)) id token
        ≡ exists_where (is_held deployment instance id token) db.partitions
  unfolding partitions_of
  select-is_held id token db =
      let rows = select_where (in_deployment deployment) db.partitions in
      let before = λ (a b : PartitionRow). collation a.partition_id b.partition_id in
      let test = λ (p : StoredPartition). is_mine instance p && has_token id token p in
      exists-select (is_mine instance) (has_token id token)
        (map partition_from_row (order_by before rows))
      ∙ (exists-map partition_from_row test (order_by before rows)
          ∙ (exists-order_by before (λ r. test (partition_from_row r)) rows
              ∙ (exists-select (in_deployment deployment) (λ r. test (partition_from_row r))
                    db.partitions
                  ∙ exists-same _ (is_held deployment instance id token) db.partitions
                      (is_held-mine id token))))

  module _ {P H W S : Type 0} (registry : RuntimeRegistry P H W S) (lease_seconds : ℕ) where
    abbrev read_all : ContinuousRegistration W → Tx (List StoredPartition)
    read_all r = partitions collation deployment >>= λ ps. pure (select_where (is_mine instance) ps)

    abbrev of_registration : WorkloadRegistration P H W → Tx (List StoredPartition)
    of_registration registration = lift (as_continuous registration) >>= read_all

    abbrev look_up : StoredDeployment → Result (WorkloadRegistration P H W)
    look_up d = workload d.workload_id d.workload_version WorkloadMode.continuous registry

    abbrev of_deployment : StoredDeployment → Tx (List StoredPartition)
    of_deployment d = lift (look_up d) >>= of_registration

    abbrev of_found : Option StoredDeployment → Tx (List StoredPartition)
    of_found found = or_raise found (lookup_error "unknown deployment") >>= of_deployment

    owned_partitions-rows :
        (db : Db) (mine : List StoredPartition)
        → (owned_partitions collation registry instance lease_seconds deployment db).0 ≡ ok mine
        → select_where (is_mine instance) (partitions_of collation deployment db) ≡ mine
    unfolding owned_partitions get_deployment partitions
    owned_partitions-rows db mine h =
        let (found, d1, e1, h1, _) = bind-inv (get_deployment deployment) of_found db mine h in
        let unknown = lookup_error "unknown deployment" in
        let (d, d2, e2, h2, _) = bind-inv (or_raise found unknown) of_deployment d1 mine h1 in
        let (registration, d3, e3, h3, _) =
          bind-inv (lift (look_up d)) of_registration d2 mine h2 in
        let (r, d4, e4, h4, _) = bind-inv (lift (as_continuous registration)) read_all d3 mine h3 in
        let same : db ≡ d4 =
          ap (λ x. x.1) e1
          ∙ (sym (or_raise-reads found unknown d1)
              ∙ (ap (λ x. x.1) e2 ∙ (ap (λ x. x.1) e3 ∙ ap (λ x. x.1) e4))) in
        ap (λ x. select_where (is_mine instance) (partitions_of collation deployment x)) same
        ∙ ap (λ x. elim x [ ok ps ↦ ps | err e ↦ mine ]) h4

    -- The rows that a tick reads are exactly those of partitions that the instance holds.
    pub owned_partitions-is_held :
        (db : Db) (mine : List StoredPartition)
        → (owned_partitions collation registry instance lease_seconds deployment db).0 ≡ ok mine
        → (id : String) (token : ℕ)
        → is_owned mine id token ≡ exists_where (is_held deployment instance id token) db.partitions
    owned_partitions-is_held db mine h id token =
        ap (λ ps. is_owned ps id token) (sym (owned_partitions-rows db mine h))
        ∙ select-is_held id token db
