-- ===== src/Testing/Leases.antt =====
-- src/distributed_runtime/testing/continuous.py: `FakeLeaseManager` and `RecordingSink`. The
-- dictionary of leases is a list of states, each with its key; `now` is the reading of the fake clock
-- and `lease_seconds` that of the policy, in the same unit. A delegate of the sink raises or returns.
use ptf.Prelude.{
  ℕ, ◌+◌, suc, String, Bool, true, false, ◌==◌, ◌&&◌, Option, none, some, List, [], ◌∷◌, ◌++◌, leb,
  not, if◌then◌else◌,
}
use ptf.Prelude.Table.{find_where, exists_where, select_where, update_where}
use ptf.Core.Envelope.{VersionedEnvelope}
use ptf.Core.Errors.{Result, ok, err, invariant_violation}
use ptf.Continuous.Contracts.{LeaseHandle, authorizes}

-- `class _LeaseState`, with its key
pub record LeaseState : Type 0 where
  pub deployment_id : String
  pub partition_id : String
  pub owner_id : String
  pub fencing_token : ℕ
  pub expires_at : ℕ

-- `class FakeLeaseManager`
pub record LeaseManager : Type 0 where
  pub token : ℕ
  pub leases : List LeaseState

abbrev pub new_manager : LeaseManager
new_manager = record { token = 0; leases = [] }

abbrev pub has_key : String → String → LeaseState → Bool
has_key deployment partition s = s.deployment_id == deployment && s.partition_id == partition

-- `_expired`
abbrev pub has_expired : ℕ → LeaseState → Bool
has_expired now s = leb s.expires_at now

-- `self._leases.get(...)`
unfoldable pub lease_of : String → String → LeaseManager → Option LeaseState
lease_of deployment partition m = find_where (has_key deployment partition) m.leases

-- `_state`
unfoldable pub authorized_state : LeaseHandle → LeaseManager → Option LeaseState
unfolding lease_of authorizes
authorized_state lease m = elim (lease_of lease.deployment_id lease.partition_id m) [
  | none ↦ none
  | some s ↦
      if authorizes lease lease.deployment_id lease.partition_id s.owner_id s.fencing_token
      then some s
      else none
]

-- `self._leases[key] = ...`, and `del`
abbrev pub without : String → String → List LeaseState → List LeaseState
without deployment partition leases =
    select_where (λ s. not (has_key deployment partition s)) leases

-- the grant of a lease
unfoldable pub grant : ℕ → ℕ → String → String → String → LeaseManager → LeaseHandle × LeaseManager
grant lease_seconds now deployment partition owner m =
    let token = suc m.token in
    (
      record {
        deployment_id = deployment;
        partition_id = partition;
        owner_id = owner;
        fencing_token = token;
      },
      record {
        token = token;
        leases =
            record {
              deployment_id = deployment;
              partition_id = partition;
              owner_id = owner;
              fencing_token = token;
              expires_at = now + lease_seconds;
            }
            ∷ without deployment partition m.leases;
      },
    )

-- `acquire`
unfoldable pub acquire :
    ℕ → ℕ → String → String → String → LeaseManager → Result LeaseHandle × LeaseManager
unfolding lease_of grant
acquire lease_seconds now deployment partition owner m =
    let (granted, after) = grant lease_seconds now deployment partition owner m in
    elim (lease_of deployment partition m) [
      | none ↦ (ok granted, after)
      | some s ↦
          if has_expired now s
          then (ok granted, after)
          else (err (invariant_violation "partition already leased"), m)
    ]

abbrev pub set_expiry : ℕ → String → String → LeaseManager → LeaseManager
set_expiry at deployment partition m = record m {
  leases = update_where (has_key deployment partition) (λ s. record s { expires_at = at }) m.leases;
}

-- `renew`
unfoldable pub renew : ℕ → ℕ → LeaseHandle → LeaseManager → Bool × LeaseManager
unfolding authorized_state
renew lease_seconds now lease m = elim (authorized_state lease m) [
  | none ↦ (false, m)
  | some s ↦
      if has_expired now s
      then (false, m)
      else (true, set_expiry (now + lease_seconds) lease.deployment_id lease.partition_id m)
]

-- `release`
unfoldable pub release : LeaseHandle → LeaseManager → Bool × LeaseManager
unfolding authorized_state
release lease m = elim (authorized_state lease m) [
  | none ↦ (false, m)
  | some s ↦ (true, record m { leases = without lease.deployment_id lease.partition_id m.leases })
]

-- `force_expire`
unfoldable pub force_expire : ℕ → String → String → LeaseManager → LeaseManager
force_expire now deployment partition m = set_expiry now deployment partition m

-- `is_current`
unfoldable pub is_current : ℕ → LeaseHandle → LeaseManager → Bool
unfolding authorized_state
is_current now lease m = elim (authorized_state lease m) [
  | none ↦ false
  | some s ↦ not (has_expired now s)
]

-- `owner_of`
unfoldable pub owner_of : ℕ → String → String → LeaseManager → Option String
unfolding lease_of
owner_of now deployment partition m = elim (lease_of deployment partition m) [
  | none ↦ none
  | some s ↦ (if has_expired now s then none else some s.owner_id)
]

-- `class EmissionRecord`
pub record EmissionRecord : Type 0 where
  pub deployment_id : String
  pub partition_id : String
  pub stable_id : String
  pub event : VersionedEnvelope
  pub fencing_token : ℕ

-- `class RecordingSink`: its records, and the keys that it has seen
pub record RecordingSink : Type 0 where
  pub records : List EmissionRecord
  pub seen : List (String × String × String)

abbrev pub same_emission : String × String × String → String × String × String → Bool
same_emission (d, p, s) (d', p', s') = d == d' && (p == p' && s == s')

-- `emit`; the key is marked as seen before the delegate is called, and stays so if that raises
unfoldable pub sink_emit :
    (VersionedEnvelope → String → LeaseHandle → Result (Unit {0}))
    → ℕ
    → LeaseManager
    → VersionedEnvelope
    → String
    → LeaseHandle
    → RecordingSink
    → Result (Unit {0}) × RecordingSink
unfolding is_current
sink_emit delegate now m event stable_id lease sink =
    let key : String × String × String = (lease.deployment_id, lease.partition_id, stable_id) in
    let marked : RecordingSink = record sink { seen = key ∷ sink.seen } in
    if not (is_current now lease m)
    then (err (invariant_violation "emission rejected: stale or expired fencing token"), sink)
    else if exists_where (same_emission key) sink.seen
    then (ok tt, sink)
    else elim (delegate event stable_id lease) [
      | err e ↦ (err e, marked)
      | ok done ↦ (
        ok tt,
        record marked {
          records =
              sink.records
              ++ record {
                deployment_id = lease.deployment_id;
                partition_id = lease.partition_id;
                stable_id = stable_id;
                event = event;
                fencing_token = lease.fencing_token;
              }
                ∷ [];
        },
      )
    ]
