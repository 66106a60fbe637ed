-- ===== src/Worker/Ticking.antt =====
-- src/distributed_runtime/worker/continuous.py: a whole tick of the supervisor.
use ptf.Prelude.{
  ℕ, Bool, ◌≤◌, ◌≡◌, refl, sym, ◌∙◌, subst, String, true, List, arith, not, length, All,
  All-implies, All-both,
}
use ptf.Prelude.Table.{exists_where, select_where, All-where, All-select, count-select_le}
use ptf.Core.Errors.{Result, ok, err}
use ptf.Registry.Workloads.{RuntimeRegistry}
use ptf.State.Db.{Db}
use ptf.State.Continuous.Sync.{StoredPartition}
use ptf.Worker.Supervisor.{
  RunningPartition, Entry, has_key, must_reap, let_go, reap, start_all, Ticked, end_tick, run_tick,
  tick, owned_partitions,
}
use ptf.Worker.Supervised.{
  is_owned, IsSingle, IsLeased, IsBacked, Starts, start_all-Starts, kept-owned,
}
use ptf.Worker.Reading.{is_held, owned_partitions-is_held}
use ptf.Worker.Renewing.{
  IsStopped, All-map, owned_self, let_go-IsStopped, renew_all-count, renew_all-exists,
  renewed-IsBacked,
}

-- the entries that a tick keeps are backed
kept-IsBacked :
    (deployment instance : String) (mine : List StoredPartition) (running : List Entry)
    → All (IsLeased deployment instance mine) running
    → All (IsBacked deployment instance mine) (select_where (λ e. not (must_reap mine e)) running)
kept-IsBacked deployment instance mine running leased =
    All-implies _ (IsBacked deployment instance mine) backed _ (
      All-both _ _ _
        (All-select (IsLeased deployment instance mine) (λ e. not (must_reap mine e)) running
          leased)
        (All-where (λ e. not (must_reap mine e) ≡ true) _ running (λ e h. h)))
  where
    backed :
        (e : Entry)
        → IsLeased deployment instance mine e × (not (must_reap mine e) ≡ true)
        → IsBacked deployment instance mine e
    backed e (leased, keeps) = record {
      owned = kept-owned deployment instance mine e (ground (arith, keeps));
      of_deployment = leased.of_deployment;
      of_partition = leased.of_partition;
      of_instance = leased.of_instance;
    }

kept-IsSingle :
    (mine : List StoredPartition) (running : List Entry)
    → IsSingle running
    → IsSingle (select_where (λ e. not (must_reap mine e)) running)
kept-IsSingle mine running single id =
    ground (arith, single id, count-select_le (λ e. not (must_reap mine e)) (has_key id) running)

module _ {P H W S : Type 0} (collation : String → String → Bool)
    (registry : RuntimeRegistry P H W S) (instance : String) (lease_seconds : ℕ) where
  -- what a tick leaves, by the rows of this instance that it read
  pub record IsTicked (monotonic : ℕ) (deployment : String) (mine : List StoredPartition)
      (t : Ticked) : Type 0 where
    pub backed : All (IsBacked deployment instance mine) t.running
    pub single : IsSingle t.running
    pub complete :
        (n : ℕ)
        → t.answer ≡ ok n
        → All (λ p. exists_where (has_key p.partition_id) t.running ≡ true) mine
          × (n ≡ length t.running)
    pub stopped : All (IsStopped monotonic) t.released

  end_tick-IsTicked :
      (monotonic now : ℕ) (deployment : String) (mine : List StoredPartition) (running : List Entry)
      (released : List RunningPartition) (out : Result (Unit {0}) × List Entry × Db)
      → All (IsStopped monotonic) released
      → Starts deployment instance mine mine running out
      → IsTicked monotonic deployment mine (end_tick monotonic now lease_seconds released out)
  unfolding end_tick
  end_tick-IsTicked monotonic now deployment mine running released (err e, es, db) stopped starts =
      record {
        backed = starts.backed;
        single = starts.single;
        complete = λ n h. absurd (cc);
        stopped = stopped;
      }
  end_tick-IsTicked monotonic now deployment mine running released (ok done, es, db) stopped
        starts =
      record {
        backed =
            renewed-IsBacked monotonic now lease_seconds deployment instance mine es db
              starts.backed;
        single = λ id.
            subst (λ n. n ≤ 1) (sym (renew_all-count monotonic now lease_seconds id es db))
              (starts.single id);
        complete = λ n h. (
          All-implies _ _
              (λ p found. renew_all-exists monotonic now lease_seconds p.partition_id es db ∙ found)
              mine (starts.complete refl),
          ground (arith, h),
        );
        stopped = stopped;
      }

  run_tick-IsTicked :
      (monotonic now : ℕ) (deployment : String) (mine : List StoredPartition) (running : List Entry)
      (db : Db)
      → All (IsLeased deployment instance mine) running
      → IsSingle running
      → IsTicked monotonic deployment mine (
          run_tick collation registry instance lease_seconds monotonic now deployment mine running
            db)
  unfolding run_tick reap
  run_tick-IsTicked monotonic now deployment mine running db leased single =
      end_tick-IsTicked monotonic now deployment mine _ _
        (start_all deployment instance mine (select_where (λ e. not (must_reap mine e)) running) db)
        (All-map (IsStopped monotonic) (let_go monotonic) (let_go-IsStopped monotonic) _)
        (start_all-Starts deployment instance mine mine _ db (owned_self mine)
          (kept-IsBacked deployment instance mine running leased)
          (kept-IsSingle mine running single))

  -- A tick that reads the rows `mine`, from a dictionary that has at most one entry for a partition,
  -- each with a lease of this instance for the partition of its key. The rows are exactly those of the
  -- partitions of the deployment that this instance owns, each under the fencing token of a grant.
  -- Afterwards, also when the tick raises midway, each entry has the partition and the fencing token of
  -- a row of `mine`, with a lease of this instance for it; no partition has two entries; each task that
  -- was dropped is done, or was told to stop after its source was cancelled; and when the tick answers
  -- a number, each row of `mine` has an entry, and the number is that of the entries.
  pub tick_lem :
      (monotonic now : ℕ) (deployment : String) (mine : List StoredPartition) (running : List Entry)
      (db : Db)
      → (owned_partitions collation registry instance lease_seconds deployment db).0 ≡ ok mine
      → All (IsLeased deployment instance mine) running
      → IsSingle running
      → ((id : String) (token : ℕ)
          → is_owned mine id token
            ≡ exists_where (is_held deployment instance id token) db.partitions)
        × IsTicked monotonic deployment mine
            (tick collation registry instance lease_seconds monotonic now deployment running db)
  unfolding tick
  tick_lem monotonic now deployment mine running db read leased single = (
    owned_partitions-is_held collation deployment instance registry lease_seconds db mine read,
    rw (read, tick) (run_tick-IsTicked monotonic now deployment mine running db leased single),
  )
