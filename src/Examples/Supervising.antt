-- ===== src/Examples/Supervising.antt =====
-- A supervisor whose task has an old token, and a tick that replaces it.
use ptf.Prelude.{◌≡◌, refl, String, false, [], ◌∷◌, arith, List, All, none}
use ptf.Prelude.Table.{find_where, select_where, count_where, exists_where, order_by, update_where}
use ptf.Core.Errors.{ok}
use ptf.Core.Identifier.{identifier}
use ptf.Core.Lifecycle.{new_source}
use ptf.Core.Name.{matches_name}
use ptf.Core.Text.{split_on, is_trimmed}
use ptf.Continuous.Contracts.{LeaseHandle, lease_handle, partition}
use ptf.Registry.Version.{matches_version, semantic_version}
use ptf.Registry.Workloads.{
  identity_eq, Declaration, ContinuousRegistration, WorkloadRegistration, RuntimeRegistry,
  identity_of, workload,
}
use ptf.State.Continuous.Deployments.{get_deployment}
use ptf.State.Continuous.Lease.{renew_lease, set_partition_status}
use ptf.State.Continuous.Sync.{StoredPartition, partition_from_row, partitions_of, partitions}
use ptf.Worker.Supervisor.{
  RunningPartition, Entry, must_reap, reap, open_partition, start_all, end_tick, renew_all,
  run_tick, tick, owned_partitions,
}
use ptf.Worker.Supervised.{is_owned, IsSingle, IsLeased}
use ptf.Prelude.{ℕ}
use ptf.Worker.Reading.{is_held}
use ptf.Worker.Ticking.{IsTicked, tick_lem}
use ptf.Examples.Data.{by_key, continuous_db, lapsed_row, lease_3}

abbrev feeds : Declaration
feeds = record { name = none; version = none; mode = none }

abbrev feed : ContinuousRegistration Declaration
feed = record {
  application = "app";
  name = "feed";
  semantic_version = "1.0.0";
  execution_class = "small";
  workload = feeds;
}

abbrev registry : RuntimeRegistry Declaration Declaration Declaration String
registry = record {
  application = "app";
  workloads =
      (
        identity_of {P = Declaration} {H = Declaration} (WorkloadRegistration.continuous feed),
        WorkloadRegistration.continuous feed,
      )
      ∷ [];
  sinks = [];
}

abbrev task : LeaseHandle → RunningPartition
task lease = record {
  lease = lease;
  cancellation = new_source;
  is_done = false;
  told_to_stop = false;
}

-- the partition `p1` under the token 2, which is no longer the one of its row
abbrev before : List Entry
before = ("p1", task (record lease_3 { fencing_token = 2 })) ∷ []

abbrev mine : List StoredPartition
mine = partition_from_row lapsed_row ∷ []

read : (owned_partitions by_key registry "w1" 60 "d1" continuous_db).0 ≡ ok mine
unfolding owned_partitions get_deployment partitions partitions_of workload identifier
    semantic_version matches_version split_on find_where select_where is_trimmed matches_name
    identity_eq order_by
read = refl

leased : All (IsLeased "d1" "w1" mine) before
leased = (record { of_deployment = refl; of_partition = refl; of_instance = refl }, tt)

single : IsSingle before
unfolding count_where
single id = ground arith

-- the old task is let go, and the partition runs under the token of its row
replaced :
    (tick by_key registry "w1" 60 0 4 "d1" before continuous_db).running ≡ ("p1", task lease_3) ∷ []
unfolding tick owned_partitions get_deployment partitions partitions_of workload identifier
    semantic_version matches_version split_on find_where select_where is_trimmed matches_name
    identity_eq run_tick reap must_reap start_all exists_where open_partition lease_handle partition
    set_partition_status end_tick renew_all renew_lease order_by count_where update_where
replaced = refl

tick_lem_example :
    ((id : String) (token : ℕ)
      → is_owned mine id token ≡ exists_where (is_held "d1" "w1" id token) continuous_db.partitions)
    × IsTicked by_key registry "w1" 60 0 "d1" mine
        (tick by_key registry "w1" 60 0 4 "d1" before continuous_db)
tick_lem_example =
    tick_lem by_key registry "w1" 60 0 4 "d1" mine before continuous_db read leased single
