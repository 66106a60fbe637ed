-- ===== src/Testing/FiniteKit.antt =====
-- src/distributed_runtime/testing/finite.py: `FiniteRuntimeTestKit`. The dictionary of runs is a list
-- of entries in insertion order. `run_planner` is what a planner yields for a request, and the
-- exception that it then ends with, if it raises; `show` prints an integer.
use ptf.Prelude.{
  ℕ, suc, zero, String, Bool, true, false, ◌==◌, ◌&&◌, Option, none, some, List, [], ◌∷◌, ◌++◌, leb,
  not, if◌then◌else◌,
}
use ptf.Prelude.Table.{find_where, exists_where}
use ptf.Core.Enums.{ExecutionStatus, is_claimable}
use ptf.Core.Errors.{Result, ok, err, Error, lookup_error, ◌>>=◌}
use ptf.Core.Json.{JsonFields}
use ptf.Core.Lifecycle.{CancellationSource, is_cancelled, reason}
use ptf.Finite.Context.{ExecutionContext}
use ptf.Finite.Unit.{WorkloadRequest, ExecutionUnit, PlanningRecord}
use ptf.Finite.Validate.{checkpoint, collect, validate_plan}
use ptf.Registry.Workloads.{FiniteRegistration}
use ptf.Testing.Delivery.{AttemptRecord, UnitState, CallEnd, invoke}
use ptf.Worker.Retry.{FinitePolicy}

-- `class _RunState`
pub record RunState (P H : Type 0) : Type 0 where
  pub request : WorkloadRequest
  pub registration : FiniteRegistration P H
  pub records : List PlanningRecord
  pub cancellation : CancellationSource
  pub units : List UnitState
  pub attempts : List AttemptRecord

-- `class FiniteRuntimeTestKit`: its runs, and how many were submitted
pub record FiniteKit (P H : Type 0) : Type 0 where
  pub runs : List (String × RunState P H)
  pub run_counter : ℕ

-- `status in _CLAIMABLE and next_attempt_at <= now`
abbrev pub is_deliverable : ℕ → UnitState → Bool
is_deliverable now u = is_claimable u.status && leb u.next_attempt_at now

-- `_TERMINAL`
abbrev pub is_terminal : ExecutionStatus → Bool
is_terminal ExecutionStatus.succeeded = true
is_terminal ExecutionStatus.failed = true
is_terminal ExecutionStatus.dead_lettered = true
is_terminal ExecutionStatus.cancelled = true
is_terminal _ = false

-- `validate_plan`, with a token that does not change, up to the exception that the planner raises
unfoldable pub validated :
    (JsonFields → String)
    → Option String
    → Option (List PlanningRecord)
    → List ExecutionUnit × Option Error
    → Result (List ExecutionUnit)
unfolding validate_plan collect checkpoint
validated digest token expected (emitted, none) = validate_plan digest (λ n. token) expected emitted
validated digest token expected (emitted, some raised) = elim (checkpoint (λ n. token) 0) [
  | err e ↦ err e
  | ok done ↦ elim (collect digest (λ n. token) 1 [] emitted) [ ok us ↦ err raised | err e ↦ err e ]
]

-- the reason that a token gives, if it is cancelled
abbrev pub token_of : ℕ → CancellationSource → Option String
token_of now source =
    if is_cancelled now source
    then some (elim (reason now source) [
      | none ↦ "cancelled"
      | some text ↦ (if text == "" then "cancelled" else text)
    ])
    else none

-- a loop's outcome behind an element that it passed
abbrev pub behind : {A B : Type 0} → A → Option (B × List A) → Option (B × List A)
behind a none = none
behind a (some (b, rest)) = some (b, a ∷ rest)

module _ {P H : Type 0} where
  abbrev pub has_id : String → String × RunState P H → Bool
  has_id id entry = entry.0 == id

  -- the runs that `_select_runs` gives
  abbrev pub is_selected : Option String → String × RunState P H → Bool
  is_selected none entry = true
  is_selected (some id) entry = entry.0 == id

  -- whether `_select_runs` raises
  unfoldable pub is_unknown : Option String → FiniteKit P H → Bool
  is_unknown none kit = false
  is_unknown (some id) kit = not (exists_where (has_id id) kit.runs)

  -- `_state`
  unfoldable pub state_of : String → FiniteKit P H → Result (RunState P H)
  state_of id kit = elim (find_where (has_id id) kit.runs) [
    | none ↦ err (lookup_error "unknown run")
    | some entry ↦ ok entry.1
  ]

  module _ (policy : FinitePolicy) (now : ℕ)
      (run_handler : H → ExecutionContext → JsonFields → CallEnd) where
    -- the inner loop of `step`: the first deliverable unit is delivered, if there is one
    unfoldable pub step_units :
        RunState P H → List UnitState → Option (Result AttemptRecord × List UnitState)
    unfolding invoke
    step_units state [] = none
    step_units state (u ∷ us) =
        let rest = step_units state us in
        if is_deliverable now u
        then (let (answer, after) =
              invoke policy now run_handler state.request.run_id state.cancellation
                state.registration.handler false u in
            some (answer, after ∷ us))
        else behind u rest

    -- the run after a delivery, its record appended
    abbrev pub delivered : RunState P H → Result AttemptRecord → List UnitState → RunState P H
    delivered state (err e) units = record state { units = units }
    delivered state (ok made) units = record state {
      units = units;
      attempts = state.attempts ++ made ∷ [];
    }

    -- the outer loop
    unfoldable pub step_runs :
        Option String
        → List (String × RunState P H)
        → Option (Result AttemptRecord × List (String × RunState P H))
    unfolding step_units
    step_runs id [] = none
    step_runs id ((name, state) ∷ entries) =
        let rest = behind (name, state) (step_runs id entries) in
        if is_selected id (name, state)
        then elim (step_units state state.units) [
          | none ↦ rest
          | some out ↦ some (out.0, (name, delivered state out.0 out.1) ∷ entries)
        ]
        else rest

    -- `step`
    unfoldable pub step :
        Option String → FiniteKit P H → Result (Option AttemptRecord) × FiniteKit P H
    unfolding step_runs is_unknown
    step id kit =
        if is_unknown id kit
        then (err (lookup_error "unknown run"), kit)
        else elim (step_runs id kit.runs) [
          | none ↦ (ok none, kit)
          | some (err e, runs) ↦ (err e, record kit { runs = runs })
          | some (ok made, runs) ↦ (ok (some made), record kit { runs = runs })
        ]

    -- `run_pending`; none when the fuel, the number of steps, does not suffice
    unfoldable pub run_pending :
        ℕ → Option String → FiniteKit P H → Option (Result (List AttemptRecord) × FiniteKit P H)
    unfolding step
    run_pending zero id kit = none
    run_pending (suc fuel) id kit =
        let (answer, after) = step id kit in
        elim answer [
          | err e ↦ some (err e, after)
          | ok none ↦ some (ok [], after)
          | ok (some made) ↦ elim (run_pending fuel id after) [
            | none ↦ none
            | some (rest, end) ↦ some (rest >>= λ records. ok (made ∷ records), end)
          ]
        ]
