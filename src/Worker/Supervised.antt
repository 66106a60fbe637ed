-- ===== src/Worker/Supervised.antt =====
-- Which partitions run after a tick of the supervisor, and under which tokens.
use ptf.Prelude.{
  ℕ, ◌≤◌, ◌≡◌, refl, sym, ap, subst, ◌⊎◌, String, Bool, true, false, ◌==◌, ◌&&◌, some, List, [],
  ◌∷◌, ◌++◌, arith, nat_eq, eq_iff, eq_refl, inl, inr, Bool-cases, Option-cases, All, All-append,
}
use ptf.Prelude.Table.{
  find_where, exists_where, count_where, exists-append, count-append, count-zero_of_exists,
}
use ptf.Core.Enums.{PartitionStatus}
use ptf.Core.Errors.{Result, Result-cases, ok, err, Error}
use ptf.Continuous.Contracts.{LeaseHandle, lease_handle, partition}
use ptf.State.Db.{Db}
use ptf.State.Continuous.Sync.{StoredPartition}
use ptf.State.Continuous.Lease.{set_partition_status}
use ptf.Worker.Supervisor.{
  RunningPartition, Entry, has_key, has_partition_id, must_reap, open_partition, start_all,
}

-- the partition and the token are those of a row that was read
abbrev pub is_owned : List StoredPartition → String → ℕ → Bool
is_owned mine id token =
    exists_where (λ p. p.partition_id == id && nat_eq p.fencing_token token) mine

-- at most one entry for a partition
abbrev pub IsSingle : List Entry → Type 0
IsSingle running = (id : String) → count_where (has_key id) running ≤ 1

module _ (deployment instance : String) (mine : List StoredPartition) where
  -- the lease of an entry is this instance's, for the partition of its key
  pub record IsLeased (e : Entry) : Type 0 where
    pub of_deployment : e.1.lease.deployment_id ≡ deployment
    pub of_partition : e.1.lease.partition_id ≡ e.0
    pub of_instance : e.1.lease.owner_id ≡ instance

  -- the same, under the token that was read
  pub record IsBacked (e : Entry) : Type 0 where
    pub owned : is_owned mine e.0 e.1.lease.fencing_token ≡ true
    pub of_deployment : e.1.lease.deployment_id ≡ deployment
    pub of_partition : e.1.lease.partition_id ≡ e.0
    pub of_instance : e.1.lease.owner_id ≡ instance

  abbrev pub IsRead : StoredPartition → Type 0
  IsRead p = is_owned mine p.partition_id p.fencing_token ≡ true

  owned_of_find :
      (id : String) (token : ℕ) (ps : List StoredPartition) (p : StoredPartition)
      → find_where (has_partition_id id) ps ≡ some p
      → nat_eq p.fencing_token token ≡ true
      → is_owned ps id token ≡ true
  unfolding find_where exists_where
  owned_of_find id token [] p found same = absurd (cc)
  owned_of_find id token (q ∷ qs) p found same =
      ground (arith, found, same, owned_of_find id token qs p)

  pub kept-owned :
      (e : Entry) → must_reap mine e ≡ false → is_owned mine e.0 e.1.lease.fencing_token ≡ true
  unfolding must_reap
  kept-owned (id, r) keeps = elim (Option-cases (find_where (has_partition_id id) mine)) [
    | inl none_left ↦ absurd (ground (arith, keeps, none_left))
    | inr (p, found) ↦
        owned_of_find id r.lease.fencing_token mine p found (ground (arith, keeps, found))
  ]

  open_partition-lease :
      (p : StoredPartition) (r : RunningPartition)
      → open_partition deployment instance p ≡ ok r
      → r.lease ≡ record {
        deployment_id = deployment;
        partition_id = p.partition_id;
        owner_id = instance;
        fencing_token = p.fencing_token;
      }
  unfolding open_partition lease_handle partition
  open_partition-lease p r e = ground (arith, e)

  -- what the loop that starts tasks establishes, whether or not it raises
  pub record Starts (ps : List StoredPartition) (running : List Entry)
      (out : Result (Unit {0}) × List Entry × Db) : Type 0 where
    pub backed : All IsBacked out.1
    pub single : IsSingle out.1
    pub keeps :
        (id : String)
        → exists_where (has_key id) running ≡ true
        → exists_where (has_key id) out.1 ≡ true
    pub complete : out.0 ≡ ok tt → All (λ p. exists_where (has_key p.partition_id) out.1 ≡ true) ps

  IsSingle-append :
      (running : List Entry) (id : String) (r : RunningPartition)
      → IsSingle running
      → exists_where (has_key id) running ≡ false
      → IsSingle (running ++ (id, r) ∷ [])
  IsSingle-append running id r single fresh k =
      ground
        (arith, single k, count-append (has_key k) running (id, r), same_key (Bool-cases (id == k)))
    where
      same_key :
          ((id == k) ≡ true) ⊎ ((id == k) ≡ false)
          → ((id == k) ≡ false) ⊎ (count_where (has_key k) running ≡ 0)
      same_key (inl same) = inr (
          count-zero_of_exists (has_key k) running
            (subst (λ j. exists_where (has_key j) running ≡ false) ((eq_iff id k).0 same) fresh))
      same_key (inr other) = inl other

  start_all-known :
      (p : StoredPartition) (ps : List StoredPartition) (running : List Entry) (db : Db)
      → exists_where (has_key p.partition_id) running ≡ true
      → start_all deployment instance (p ∷ ps) running db
        ≡ start_all deployment instance ps running db
  unfolding start_all
  start_all-known p ps running db known = rw (known, start_all) refl

  start_all-raised :
      (p : StoredPartition) (ps : List StoredPartition) (running : List Entry) (db : Db) (e : Error)
      → exists_where (has_key p.partition_id) running ≡ false
      → open_partition deployment instance p ≡ err e
      → start_all deployment instance (p ∷ ps) running db ≡ (err e, running, db)
  unfolding start_all
  start_all-raised p ps running db e fresh wrong = rw (fresh, wrong, start_all) refl

  start_all-opened :
      (p : StoredPartition) (ps : List StoredPartition) (running : List Entry) (db : Db)
      (r : RunningPartition)
      → exists_where (has_key p.partition_id) running ≡ false
      → open_partition deployment instance p ≡ ok r
      → start_all deployment instance (p ∷ ps) running db
        ≡ start_all deployment instance ps
            (running ++ (p.partition_id, r) ∷ [])
            (set_partition_status r.lease PartitionStatus.running db).1
  unfolding start_all
  start_all-opened p ps running db r fresh opened = rw (fresh, opened, start_all) refl

  pub start_all-Starts :
      (ps : List StoredPartition) (running : List Entry) (db : Db)
      → All IsRead ps
      → All IsBacked running
      → IsSingle running
      → Starts ps running (start_all deployment instance ps running db)
  unfolding start_all
  start_all-Starts [] running db here backed single = record {
    backed = backed;
    single = single;
    keeps = λ id h. h;
    complete = λ h. tt;
  }
  start_all-Starts (p ∷ ps) running db here backed single =
      elim (Bool-cases (exists_where (has_key p.partition_id) running)) [
        | inl known ↦
            let rest = start_all-Starts ps running db here.1 backed single in
            subst (Starts (p ∷ ps) running) (sym (start_all-known p ps running db known)) (record {
              backed = rest.backed;
              single = rest.single;
              keeps = rest.keeps;
              complete = λ h. (rest.keeps p.partition_id known, rest.complete h);
            })
        | inr fresh ↦ elim (Result-cases (open_partition deployment instance p)) [
          | inr (raised, wrong) ↦
              subst (Starts (p ∷ ps) running)
                (sym (start_all-raised p ps running db raised fresh wrong))
                (record {
                  backed = backed;
                  single = single;
                  keeps = λ id h. h;
                  complete = λ h. absurd (cc);
                })
          | inl (r, opened) ↦
              let lease = open_partition-lease p r opened in
              let one : IsBacked (p.partition_id, r) = record {
                owned =
                    subst (λ (l : LeaseHandle). is_owned mine p.partition_id l.fencing_token ≡ true)
                      (sym lease) here.0;
                of_deployment = ap (λ (l : LeaseHandle). l.deployment_id) lease;
                of_partition = ap (λ (l : LeaseHandle). l.partition_id) lease;
                of_instance = ap (λ (l : LeaseHandle). l.owner_id) lease;
              } in
              let rest =
                start_all-Starts ps (running ++ (p.partition_id, r) ∷ [])
                  (set_partition_status r.lease PartitionStatus.running db).1 here.1
                  (All-append IsBacked running ((p.partition_id, r) ∷ []) backed (one, tt))
                  (IsSingle-append running p.partition_id r single fresh) in
              let grows = λ (id : String). exists-append (has_key id) running (p.partition_id, r) in
              subst (Starts (p ∷ ps) running)
                (sym (start_all-opened p ps running db r fresh opened))
                (record {
                  backed = rest.backed;
                  single = rest.single;
                  keeps = λ id h. rest.keeps id (ground (arith, h, grows id));
                  complete = λ h. (
                    rest.keeps p.partition_id
                        (ground (arith, grows p.partition_id, eq_refl p.partition_id)),
                    rest.complete h,
                  );
                })
        ]
      ]
