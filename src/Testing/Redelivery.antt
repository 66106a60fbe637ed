-- ===== src/Testing/Redelivery.antt =====
-- src/distributed_runtime/testing/finite.py: `redeliver` of the kit, which repeats the delivery of a
-- unit that has ended.
use ptf.Prelude.{
  ℕ, ◌+◌, String, Bool, true, ◌==◌, Option, none, some, List, [], ◌∷◌, nat_eq, if◌then◌else◌,
}
use ptf.Prelude.Table.{count_where}
use ptf.Core.Errors.{Result, err, lookup_error}
use ptf.Core.Json.{JsonFields}
use ptf.Finite.Context.{ExecutionContext}
use ptf.Testing.Delivery.{AttemptRecord, UnitState, CallEnd, invoke}
use ptf.Testing.FiniteKit.{
  RunState, FiniteKit, is_terminal, is_selected, is_unknown, behind, delivered,
}
use ptf.Worker.Retry.{FinitePolicy}

abbrev pub has_unit_key : String → UnitState → Bool
has_unit_key key u = u.unit.unit_key == key

module _ {P H : Type 0} where
  -- `len(matches)`
  unfoldable pub count_matches : Option String → String → List (String × RunState P H) → ℕ
  count_matches id key [] = 0
  count_matches id key ((name, state) ∷ entries) =
      let rest = count_matches id key entries in
      if is_selected id (name, state)
      then count_where (has_unit_key key) state.units + rest
      else rest

  module _ (policy : FinitePolicy) (now : ℕ)
      (run_handler : H → ExecutionContext → JsonFields → CallEnd) where
    -- the repeated delivery of a unit, if it has ended
    unfoldable pub repeat_unit : RunState P H → UnitState → Result AttemptRecord × UnitState
    unfolding invoke
    repeat_unit state u =
        if is_terminal u.status
        then (invoke policy now run_handler state.request.run_id state.cancellation
            state.registration.handler true u)
        else (err (lookup_error "unit has not completed"), u)

    -- the first unit with the key
    unfoldable pub repeat_units :
        String → RunState P H → List UnitState → Option (Result AttemptRecord × List UnitState)
    unfolding repeat_unit
    repeat_units key state [] = none
    repeat_units key state (u ∷ us) =
        let rest = behind u (repeat_units key state us) in
        let (answer, after) = repeat_unit state u in
        if has_unit_key key u then some (answer, after ∷ us) else rest

    unfoldable pub repeat_runs :
        Option String
        → String
        → List (String × RunState P H)
        → Option (Result AttemptRecord × List (String × RunState P H))
    unfolding repeat_units
    repeat_runs id key [] = none
    repeat_runs id key ((name, state) ∷ entries) =
        let rest = behind (name, state) (repeat_runs id key entries) in
        if is_selected id (name, state)
        then elim (repeat_units key state state.units) [
          | none ↦ rest
          | some out ↦
              some (out.0, (name, delivered policy now run_handler state out.0 out.1) ∷ entries)
        ]
        else rest

    -- `redeliver`
    unfoldable pub redeliver :
        String → Option String → FiniteKit P H → Result AttemptRecord × FiniteKit P H
    unfolding is_unknown count_matches repeat_runs
    redeliver key id kit =
        if is_unknown id kit
        then (err (lookup_error "unknown run"), kit)
        else if nat_eq (count_matches id key kit.runs) 1
        then elim (repeat_runs id key kit.runs) [
          | none ↦ (err (lookup_error "expected exactly one unit"), kit)
          | some out ↦ (out.0, record kit { runs = out.1 })
        ]
        else (err (lookup_error "expected exactly one unit"), kit)
