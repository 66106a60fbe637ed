-- ===== src/State/Finite/History.antt =====
-- Histories: any sequence of the operations of `FiniteStateStore` that write, by any callers with
-- any arguments, each at a time of its own.
use ptf.Prelude.{
  ℕ, ◌<◌, ◌≡◌, String, Bool, false, Option, some, List, [], ◌∷◌, arith, All, All-intro, ap,
}
use ptf.Prelude.Table.{find_where}
use ptf.Core.Enums.{RunStatus, ExecutionStatus}
use ptf.Core.Json.{JsonValue, JsonFields}
use ptf.Core.Errors.{ok, err}
use ptf.Finite.Unit.{ExecutionUnit}
use ptf.State.Db.{Db, RunRow, UnitRow}
use ptf.State.Finite.Runs.{submit_run, transition_run}
use ptf.State.Finite.Plan.{has_key, record_plan}
use ptf.State.Finite.Claim.{ClaimedUnit, claim_unit, claim_units}
use ptf.State.Finite.Attempt.{final_status, holds_token, complete_attempt, dead_letter}
use ptf.State.Finite.Finalize.{finalize_run_if_done}
use ptf.State.Finite.Exclusion.{IsKeyed, running_row, claim_unit-Got, claim_unit-IsKeyed}
use ptf.State.Finite.Encoding.{refusal}
use ptf.State.Finite.Fencing.{complete_attempt-stale}
use ptf.State.Finite.Change.{
  Change, UnitInv, Change-UnitInv, Change-IsKeyed, Change-Grown, Change-running,
}
use ptf.State.Finite.Effects.{
  Changes, submit_run-Changes, transition_run-Changes, record_plan-Changes, claim_unit-Changes,
  complete_attempt-Changes, dead_letter-Changes, finalize-Changes,
}
use ptf.State.Finite.Batch.{claim_units-Changes}

-- A call of the store, with its arguments; a claim carries its time.
pub data Call : Type 0 where
  submit : RunRow → Call
  transition : String → RunStatus → Call
  plan : String → ℕ → List ExecutionUnit → Call
  claim : ℕ → String → String → String → ℕ → Call
  claim_batch : ℕ → String → ℕ → ℕ → Option String → (UnitRow → Bool) → Call
  complete : ClaimedUnit → String → String → JsonValue → JsonValue → Option ℕ → Call
  bury : ClaimedUnit → Call
  finalize : String → Call

-- The call writes under a claim of the kind `H`, or under none.
abbrev pub Allowed : (ClaimedUnit → Type 0) → Call → Type 0
Allowed H (complete c id outcome result error retry_at) = H c
Allowed H (bury c) = H c
Allowed H _ = Unit {0}

Allowed-any : (c : Call) → Allowed (λ h. Unit {0}) c
Allowed-any (submit row) = tt
Allowed-any _ = tt

module _ (digest : JsonFields → String) (collation : String → String → Bool) where
  -- The database after a call, whether it returned or raised.
  unfoldable pub step : Db → Call → Db
  step db (submit row) = (submit_run row db).1
  step db (transition id s) = (transition_run id s db).1
  step db (plan run gen us) = (record_plan digest run gen us db).1
  step db (claim now owner run key grace) = (claim_unit now owner run key grace db).1
  step db (claim_batch now owner limit grace required locked) =
      (claim_units collation now owner limit grace required locked db).1
  step db (complete c id outcome result error retry_at) =
      (complete_attempt c id outcome result error retry_at db).1
  step db (bury c) = (dead_letter c db).1
  step db (finalize run) = (finalize_run_if_done run db).1

  unfoldable pub run_calls : Db → List Call → Db
  unfolding step
  run_calls db [] = db
  run_calls db (c ∷ cs) = run_calls (step db c) cs

  step-Changes :
      (H : ClaimedUnit → Type 0) (db : Db) (c : Call)
      → Allowed H c
      → IsKeyed db.units
      → Changes H db (step db c)
  unfolding step
  step-Changes H db (submit row) a k = submit_run-Changes H row db
  step-Changes H db (transition id s) a k = transition_run-Changes H id s db
  step-Changes H db (plan run gen us) a k = record_plan-Changes H digest run gen us db
  step-Changes H db (claim now owner run key grace) a k =
      claim_unit-Changes H now owner run key grace db
  step-Changes H db (claim_batch now owner limit grace required locked) a k =
      claim_units-Changes collation db now limit required locked owner grace H k
  step-Changes H db (complete c id outcome result error retry_at) a k =
      complete_attempt-Changes H c id outcome result error retry_at a db
  step-Changes H db (bury c) a k = dead_letter-Changes H c a db
  step-Changes H db (finalize run) a k = finalize-Changes H run db

  run_calls-Changes :
      (H : ClaimedUnit → Type 0) (db : Db) (cs : List Call)
      → All (Allowed H) cs
      → IsKeyed db.units
      → Changes H db (run_calls db cs)
  unfolding run_calls
  run_calls-Changes H db [] a k = Change.same db.units
  run_calls-Changes H db (c ∷ cs) a k =
      let one = step-Changes H db c a.0 k in
      Change.next one (run_calls-Changes H (step db c) cs a.1 (Change-IsKeyed one k))

  -- the same with no condition on the calls
  any_calls-Changes :
      (db : Db) (cs : List Call) → IsKeyed db.units → Changes (λ c. Unit {0}) db (run_calls db cs)
  any_calls-Changes db cs k =
      run_calls-Changes (λ c. Unit {0}) db cs (All-intro (Allowed (λ c. Unit {0})) Allowed-any cs) k

  pub run_calls-IsKeyed :
      (db : Db) (cs : List Call) → IsKeyed db.units → IsKeyed (run_calls db cs).units
  run_calls-IsKeyed db cs k = Change-IsKeyed (any_calls-Changes db cs k) k

  -- Any history keeps the table of units consistent: each key names one row; a running unit has an
  -- owner and an expiry and no retry time; a unit that waits for a claim has neither owner nor
  -- expiry; its token counts its attempts, and a `ready` unit has had none.
  pub run_calls-UnitInv :
      (db : Db) (cs : List Call)
      → IsKeyed db.units
      → All UnitInv db.units
      → IsKeyed (run_calls db cs).units × All UnitInv (run_calls db cs).units
  run_calls-UnitInv db cs k v =
      let all = any_calls-Changes db cs k in (Change-IsKeyed all k, Change-UnitInv all v)

  -- Once a unit has been claimed under a token, a handle with a smaller token stays fenced for ever:
  -- after any further history its completion is refused and changes nothing. The error is that of a
  -- stale claim, or that of the encoding where the completion's result or error has a float which is
  -- not finite.
  pub claim_fences_older :
      (now : ℕ) (owner : String) (grace : ℕ) (db : Db) (c old : ClaimedUnit) (cs : List Call)
      (id outcome : String) (result error : JsonValue) (retry_at : Option ℕ)
      (status : ExecutionStatus)
      → IsKeyed db.units
      → (claim_unit now owner old.run_id old.unit_key grace db).0 ≡ ok (some c)
      → old.claim_token < c.claim_token
      → final_status outcome ≡ some status
      → let later = run_calls (claim_unit now owner old.run_id old.unit_key grace db).1 cs in
        complete_attempt old id outcome result error retry_at later
        ≡ (err (refusal result error), later)
  claim_fences_older now owner grace db c old cs id outcome result error retry_at status k got older
        known =
      let held = (claim_unit now owner old.run_id old.unit_key grace db).1 in
      let g = claim_unit-Got now owner old.run_id old.unit_key grace db c k got in
      let k' = claim_unit-IsKeyed now owner old.run_id old.unit_key grace db k in
      let all = any_calls-Changes held cs k' in
      let (v, e, le) =
        Change-Grown old.run_id old.unit_key (running_row now owner grace g.unit g.plan) all
          g.after in
      complete_attempt-stale old (run_calls held cs) v (Change-IsKeyed all k') e id outcome result
        error retry_at status known
        (λ same. omega (arith, ap (λ (x : ClaimedUnit). x.claim_token) g.handle))

  -- A unit that is running stays as it is, with its expired claim, through any history in which
  -- nobody writes under its token: no claim, planning, transition or finalisation frees it, at any
  -- time.
  pub running_stays :
      (run key : String) (u : UnitRow) (db : Db) (cs : List Call)
      → IsKeyed db.units
      → find_where (has_key run key) db.units ≡ some u
      → u.status ≡ ExecutionStatus.running
      → All (Allowed (λ c. holds_token c u ≡ false)) cs
      → find_where (has_key run key) (run_calls db cs).units ≡ some u
  running_stays run key u db cs k found runs others =
      Change-running run key u (λ c h. h) runs
        (run_calls-Changes (λ c. holds_token c u ≡ false) db cs others k) found
