-- ===== src/Finite/Validate.antt =====
-- `validate_plan` of src/distributed_runtime/finite/contracts.py. The planner's sequence of units is
-- an argument; `token n` is the reason of the cancellation, if there is one, at the n-th check.
use ptf.Prelude.{
  ℕ, suc, String, Bool, true, ◌==◌, Option, none, some, List, [], ◌∷◌, is_none, if◌then◌else◌,
}
use ptf.Core.Json.{JsonFields}
use ptf.Core.Errors.{Result, ok, err, ◌>>=◌, ◌>>◌, require, planning_drift, cancellation_error}
use ptf.Finite.Unit.{ExecutionUnit, PlanningRecord, planning_records, records_eq}

-- `seen.get(key)`
unfoldable pub seen_digest : String → List (String × String) → Option String
seen_digest k [] = none
seen_digest k ((j, d) ∷ seen) = if j == k then some d else seen_digest k seen

-- `cancellation.raise_if_cancelled()`
unfoldable pub checkpoint : (ℕ → Option String) → ℕ → Result (Unit {0})
checkpoint token n = elim (token n) [ none ↦ ok tt | some reason ↦ err (cancellation_error reason) ]

-- no cancellation token was given
abbrev pub no_token : ℕ → Option String
no_token n = none

abbrev pub duplicate_key : String
duplicate_key = "duplicate unit key"

abbrev pub sequence_differs : String
sequence_differs = "planned sequence differs from durable sequence"

-- the `async for` loop, and the check behind it
unfoldable pub collect :
    (JsonFields → String)
    → (ℕ → Option String)
    → ℕ
    → List (String × String)
    → List ExecutionUnit
    → Result (List ExecutionUnit)
collect digest token n seen [] = do checkpoint token n; ok []
collect digest token n seen (u ∷ us) = do
  checkpoint token n
  require (is_none (seen_digest u.unit_key seen)) (planning_drift duplicate_key)
  rest ← collect digest token (suc n) ((u.unit_key, digest u.payload) ∷ seen) us
  ok (u ∷ rest)

-- `expected is not None and tuple(records) != expected` does not hold
unfoldable pub meets_expected : Option (List PlanningRecord) → List PlanningRecord → Bool
meets_expected none records = true
meets_expected (some expected) records = records_eq records expected

unfoldable pub validate_plan :
    (JsonFields → String)
    → (ℕ → Option String)
    → Option (List PlanningRecord)
    → List ExecutionUnit
    → Result (List ExecutionUnit)
validate_plan digest token expected emitted = do
  checkpoint token 0
  units ← collect digest token 1 [] emitted
  require (meets_expected expected (planning_records digest 0 units))
      (planning_drift sequence_differs)
  ok units
