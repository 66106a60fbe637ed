-- ===== src/Examples/Leasing.antt =====
-- A partition whose lease lapses and is granted to another owner.
use ptf.Prelude.{◌≡◌, ◌≤◌, refl, false, [], ◌∷◌, arith}
use ptf.Prelude.Table.{find_where, exists_where, select_where}
use ptf.Core.Errors.{ok, err, invariant_violation}
use ptf.Continuous.Contracts.{LeaseHandle, authorizes}
use ptf.Testing.Fenced.{Call, perform_all, acquire_retires}
use ptf.Testing.Leases.{
  LeaseManager, new_manager, lease_of, authorized_state, grant, acquire, is_current, sink_emit,
}
use ptf.Examples.Data.{envelope}

abbrev first : LeaseHandle
first = record { deployment_id = "d1"; partition_id = "p1"; owner_id = "w1"; fencing_token = 1 }

abbrev second : LeaseHandle
second = record { deployment_id = "d1"; partition_id = "p1"; owner_id = "w2"; fencing_token = 2 }

abbrev held : LeaseManager
held = (acquire 60 0 "d1" "p1" "w1" new_manager).1

first_granted : (acquire 60 0 "d1" "p1" "w1" new_manager).0 ≡ ok first
unfolding acquire lease_of grant find_where
first_granted = refl

too_early :
    (acquire 60 59 "d1" "p1" "w2" held).0 ≡ err (invariant_violation "partition already leased")
unfolding acquire lease_of grant find_where select_where
too_early = refl

issued : first.fencing_token ≤ held.token
unfolding acquire lease_of grant find_where select_where
issued = omega arith

second_granted : (acquire 60 60 "d1" "p1" "w2" held).0 ≡ ok second
unfolding acquire lease_of grant find_where select_where
second_granted = refl

acquire_retires_example :
    let after = (acquire 60 60 "d1" "p1" "w2" held).1 in
    is_current 70 first
      (perform_all 60 (Call.renew_call 65 first ∷ Call.expire_call 66 "d1" "p1" ∷ []) after)
    ≡ false
acquire_retires_example =
    acquire_retires 60 60 "w2" held first second issued second_granted
      (Call.renew_call 65 first ∷ Call.expire_call 66 "d1" "p1" ∷ []) 70

-- a stale emission is refused
refused :
    (sink_emit
      (λ event id lease. ok tt)
      61
      (acquire 60 60 "d1" "p1" "w2" held).1
      envelope
      "e1"
      first
      (record { records = []; seen = [] })).0
    ≡ err (invariant_violation "emission rejected: stale or expired fencing token")
unfolding sink_emit is_current authorized_state authorizes acquire lease_of grant find_where
    select_where exists_where
refused = refl
