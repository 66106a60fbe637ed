-- ===== src/Finite/Unit.antt =====
-- src/distributed_runtime/finite/contracts.py: requests, execution units and planning records.
-- The digest of a payload (canonical JSON and SHA-256) is a parameter, `digest`, and so is the
-- hexadecimal SHA-256 of a text, `sha256`.
use ptf.Prelude.{
  suc, refl, ℕ, String, Bool, true, false, ◌&&◌, ◌==◌, ◌≡◌, Option, none, some, List, [], ◌∷◌, leb,
  nat_eq, ◌≤◌, arith, eq_iff, ◌↔◌,
}
use ptf.Core.Json.{JsonFields, finite_fields}
use ptf.Core.Errors.{Result, ok, ◌>>◌, require, value_error}
use ptf.Core.Name.{require_contract_name, matches_name, codes}
use Prim.Native.String.{◌++◌}

-- `class WorkloadRequest`
pub record WorkloadRequest : Type 0 where
  pub run_id : String
  pub workload_id : String
  pub planner_revision : String
  pub execution_revision : String
  pub payload : JsonFields

-- `class ExecutionUnit`; `__post_init__` fills `idempotency_key` in, so it is a text.
pub record ExecutionUnit : Type 0 where
  pub unit_key : String
  pub handler : String
  pub payload : JsonFields
  pub execution_class : String
  pub timeout_seconds : ℕ
  pub max_attempts : ℕ
  pub idempotency_key : String

abbrev pub key_or : Option String → String → String
key_or none d = d
key_or (some k) d = k

-- `ExecutionUnit(...)`: the checks of `__post_init__`, the last of which is made as the payload is frozen.
unfoldable pub execution_unit :
    String → String → JsonFields → String → ℕ → ℕ → Option String → Result ExecutionUnit
unfolding finite_fields
execution_unit unit_key handler payload execution_class timeout_seconds max_attempts key = do
  require_contract_name "unit_key" unit_key
  require_contract_name "handler" handler
  require_contract_name "execution_class" execution_class
  require (leb 1 timeout_seconds && leb timeout_seconds 3600)
      (value_error "timeout_seconds must be between 1 and 3600")
  require (leb 1 max_attempts) (value_error "max_attempts must be a positive integer")
  require_contract_name "idempotency_key" (key_or key unit_key)
  require (finite_fields payload) (value_error "payload does not support non-finite numbers")
  ok (record {
    unit_key = unit_key;
    handler = handler;
    payload = payload;
    execution_class = execution_class;
    timeout_seconds = timeout_seconds;
    max_attempts = max_attempts;
    idempotency_key = key_or key unit_key;
  })

-- What the checks establish.
pub record IsUnit (u : ExecutionUnit) : Type 0 where
  pub key_named : matches_name (codes u.unit_key) ≡ true
  pub handler_named : matches_name (codes u.handler) ≡ true
  pub class_named : matches_name (codes u.execution_class) ≡ true
  pub idempotency_named : matches_name (codes u.idempotency_key) ≡ true
  pub timeout_positive : 1 ≤ u.timeout_seconds
  pub timeout_capped : u.timeout_seconds ≤ 3600
  pub attempts_positive : 1 ≤ u.max_attempts
  pub payload_finite : finite_fields u.payload ≡ true

-- `class PlanningRecord`
pub record PlanningRecord : Type 0 where
  pub ordinal : ℕ
  pub unit_key : String
  pub payload_sha256 : String

-- equality of the frozen dataclass
abbrev pub record_eq : PlanningRecord → PlanningRecord → Bool
record_eq a b =
    nat_eq a.ordinal b.ordinal && a.unit_key == b.unit_key && a.payload_sha256 == b.payload_sha256

-- equality of tuples of records
unfoldable pub records_eq : List PlanningRecord → List PlanningRecord → Bool
records_eq [] [] = true
records_eq [] (b ∷ bs) = false
records_eq (a ∷ as') [] = false
records_eq (a ∷ as') (b ∷ bs) = record_eq a b && records_eq as' bs

-- `ExecutionUnit.planning_record`
abbrev pub planning_record : (JsonFields → String) → ExecutionUnit → ℕ → PlanningRecord
planning_record digest u n = record {
  ordinal = n;
  unit_key = u.unit_key;
  payload_sha256 = digest u.payload;
}

-- The records of a plan, numbered from `n`: `planning_record(len(records))` for each unit in turn.
unfoldable pub planning_records :
    (JsonFields → String) → ℕ → List ExecutionUnit → List PlanningRecord
planning_records digest n [] = []
planning_records digest n (u ∷ us) = planning_record digest u n ∷ planning_records digest (suc n) us

-- `ExecutionUnit.execution_id`: the fields joined by NUL, hashed.
unfoldable pub execution_id : (String → String) → ExecutionUnit → WorkloadRequest → String
execution_id sha256 u request =
    "execution:"
    ++ sha256 (request.run_id ++ ("\0" ++ (request.execution_revision ++ ("\0" ++ u.unit_key))))

-- A unit exists only with valid names, a timeout within an hour and at least one attempt.
pub execution_unit-IsUnit :
    (unit_key handler : String) (payload : JsonFields) (execution_class : String)
    (timeout_seconds max_attempts : ℕ) (key : Option String) (u : ExecutionUnit)
    → execution_unit unit_key handler payload execution_class timeout_seconds max_attempts key
      ≡ ok u
    → IsUnit u
unfolding execution_unit require_contract_name
execution_unit-IsUnit k h p c t m key u e = ground arith

pub record_eq_iff : (a b : PlanningRecord) → (record_eq a b ≡ true) ↔ (a ≡ b)
record_eq_iff a b =
    ground (arith, eq_iff a.unit_key b.unit_key, eq_iff a.payload_sha256 b.payload_sha256)

pub records_eq→eq : (as' bs : List PlanningRecord) → records_eq as' bs ≡ true → as' ≡ bs
unfolding records_eq
records_eq→eq [] [] h = refl
records_eq→eq [] (b ∷ bs) h = cc
records_eq→eq (a ∷ as') [] h = cc
records_eq→eq (a ∷ as') (b ∷ bs) h = ground (arith, record_eq_iff a b, records_eq→eq as' bs)

pub records_eq_refl : (as' : List PlanningRecord) → records_eq as' as' ≡ true
unfolding records_eq
records_eq_refl [] = refl
records_eq_refl (a ∷ as') = ground (arith, record_eq_iff a a, records_eq_refl as')
