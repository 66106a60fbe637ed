-- ===== src/Testing/Spending.antt =====
-- src/distributed_runtime/testing/finite.py: a step of the kit uses up one of the deliveries left, or
-- it changes nothing.
use ptf.Prelude.{
  ℕ, ◌+◌, ◌<◌, ◌≡◌, ◌∙◌, refl, String, true, false, Option, none, some, List, [], ◌∷◌, arith, subst,
  sym, ap, Bool-cases, inl, inr, Option-cases,
}
use ptf.Core.Errors.{Result, ok, err}
use ptf.Core.Json.{JsonFields}
use ptf.Finite.Context.{ExecutionContext}
use ptf.Testing.Budget.{unit_budget, invoke-budget}
use ptf.Testing.Delivery.{AttemptRecord, UnitState, CallEnd, invoke}
use ptf.Testing.FiniteKit.{
  RunState, FiniteKit, is_deliverable, is_selected, is_unknown, behind, delivered, step_units,
  step_runs, step,
}
use ptf.Worker.Retry.{FinitePolicy}

pub some_pair : {A B : Type 0} {x y : A × B} → some x ≡ some y → (x.0 ≡ y.0) × (x.1 ≡ y.1)
some_pair {x = x} e =
    let same = ap (λ o. elim o [ none ↦ x | some z ↦ z ]) e in
    (ap (λ z. z.0) same, ap (λ z. z.1) same)

-- an outcome behind an element, taken apart
pub behind-inv :
    {A B : Type 0} (a : A) (o : Option (B × List A)) (b : B) (out : List A)
    → behind a o ≡ some (b, out)
    → (rest : List A) × (o ≡ some (b, rest)) × (a ∷ rest ≡ out)
behind-inv a none b out e = absurd (cc)
behind-inv a (some (x, rest)) b out e =
    let (first, second) = some_pair e in (rest, ap (λ y. some (y, rest)) first, second)

unfoldable pub units_budget : List UnitState → ℕ
unfolding unit_budget
units_budget [] = 0
units_budget (u ∷ us) = unit_budget u + units_budget us

module _ {P H : Type 0} where
  unfoldable pub runs_budget : List (String × RunState P H) → ℕ
  unfolding units_budget
  runs_budget [] = 0
  runs_budget ((name, state) ∷ entries) = units_budget state.units + runs_budget entries

  module _ (policy : FinitePolicy) (now : ℕ)
      (run_handler : H → ExecutionContext → JsonFields → CallEnd) where
    abbrev deliver : RunState P H → UnitState → Result AttemptRecord × UnitState
    deliver state u =
        invoke policy now run_handler state.request.run_id state.cancellation
          state.registration.handler false u

    step_units-due :
        (state : RunState P H) (u : UnitState) (us : List UnitState)
        → is_deliverable now u ≡ true
        → step_units policy now run_handler state (u ∷ us)
          ≡ some ((deliver state u).0, (deliver state u).1 ∷ us)
    unfolding step_units
    step_units-due state u us due = rw (due, step_units) refl

    step_units-passed :
        (state : RunState P H) (u : UnitState) (us : List UnitState)
        → is_deliverable now u ≡ false
        → step_units policy now run_handler state (u ∷ us)
          ≡ behind u (step_units policy now run_handler state us)
    unfolding step_units
    step_units-passed state u us waits = rw (waits, step_units) refl

    step_units-budget :
        (state : RunState P H) (us : List UnitState) (made : AttemptRecord) (after : List UnitState)
        → step_units policy now run_handler state us ≡ some (ok made, after)
        → units_budget after < units_budget us
    unfolding units_budget step_units
    step_units-budget state [] made after e = absurd (cc)
    step_units-budget state (u ∷ us) made after e = elim (Bool-cases (is_deliverable now u)) [
      | inl due ↦
          let (answered, rest) = some_pair (sym (step_units-due state u us due) ∙ e) in
          subst (λ x. units_budget x < units_budget (u ∷ us)) rest
            (ground (
              arith,
              invoke-budget policy now run_handler state.request.run_id state.cancellation
                  state.registration.handler u made due answered,
            ))
      | inr waits ↦
          let (rest, passed, same) =
            behind-inv u (step_units policy now run_handler state us) (ok made) after
              (sym (step_units-passed state u us waits) ∙ e) in
          subst (λ x. units_budget x < units_budget (u ∷ us)) same
            (ground (arith, step_units-budget state us made rest passed))
    ]

    abbrev walk :
        Option String
        → List (String × RunState P H)
        → Option (Result AttemptRecord × List (String × RunState P H))
    walk = step_runs policy now run_handler

    -- a run that gives the loop nothing is passed
    step_runs-passed :
        (id : Option String) (name : String) (state : RunState P H)
        (entries : List (String × RunState P H))
        → step_units policy now run_handler state state.units ≡ none
        → walk id ((name, state) ∷ entries) ≡ behind (name, state) (walk id entries)
    unfolding step_runs
    step_runs-passed id name state entries idle = elim (Bool-cases (is_selected id (name, state))) [
      | inl taken ↦ rw (taken, idle, step_runs) refl
      | inr other ↦ rw (other, step_runs) refl
    ]

    step_runs-other :
        (id : Option String) (name : String) (state : RunState P H)
        (entries : List (String × RunState P H))
        → is_selected id (name, state) ≡ false
        → walk id ((name, state) ∷ entries) ≡ behind (name, state) (walk id entries)
    unfolding step_runs
    step_runs-other id name state entries other = rw (other, step_runs) refl

    step_runs-delivered :
        (id : Option String) (name : String) (state : RunState P H)
        (entries : List (String × RunState P H)) (answer : Result AttemptRecord)
        (units : List UnitState)
        → is_selected id (name, state) ≡ true
        → step_units policy now run_handler state state.units ≡ some (answer, units)
        → walk id ((name, state) ∷ entries)
          ≡ some (answer, (name, delivered policy now run_handler state answer units) ∷ entries)
    unfolding step_runs
    step_runs-delivered id name state entries answer units taken given =
        rw (taken, given, step_runs) refl

    step_runs-budget :
        (id : Option String) (entries : List (String × RunState P H)) (made : AttemptRecord)
        (after : List (String × RunState P H))
        → walk id entries ≡ some (ok made, after)
        → runs_budget after < runs_budget entries
    unfolding runs_budget step_runs
    step_runs-budget id [] made after e = absurd (cc)
    step_runs-budget id ((name, state) ∷ entries) made after e =
        elim (Bool-cases (is_selected id (name, state))) [
          | inr other ↦
              behind_budget (step_runs-budget id entries made)
                (step_runs-other id name state entries other)
          | inl taken ↦ elim (Option-cases (step_units policy now run_handler state state.units)) [
            | inl idle ↦
                behind_budget (step_runs-budget id entries made)
                  (step_runs-passed id name state entries idle)
            | inr ((answer, units), given) ↦
                let (answered, rest) =
                  some_pair (
                    sym (step_runs-delivered id name state entries answer units taken given) ∙ e) in
                subst (λ x. runs_budget x < runs_budget ((name, state) ∷ entries)) rest
                  (delivered_budget answer units answered given)
          ]
        ]
      where
        behind_budget :
            ((rest : List (String × RunState P H))
              → walk id entries ≡ some (ok made, rest)
              → runs_budget rest < runs_budget entries)
            → walk id ((name, state) ∷ entries) ≡ behind (name, state) (walk id entries)
            → runs_budget after < runs_budget ((name, state) ∷ entries)
        behind_budget shrinks passed =
            let (rest, walked, same) =
              behind-inv (name, state) (walk id entries) (ok made) after (sym passed ∙ e) in
            subst (λ x. runs_budget x < runs_budget ((name, state) ∷ entries)) same
              (ground (arith, shrinks rest walked))

        delivered_budget :
            (answer : Result AttemptRecord) (units : List UnitState)
            → answer ≡ ok made
            → step_units policy now run_handler state state.units ≡ some (answer, units)
            → runs_budget ((name, delivered policy now run_handler state answer units) ∷ entries)
              < runs_budget ((name, state) ∷ entries)
        delivered_budget (err x) units answered given = absurd (cc)
        delivered_budget (ok r) units answered given = ground (
          arith,
          step_units-budget state state.units made units
              (given ∙ ap (λ a. some (a, units)) answered),
        )

    -- what one step does to the deliveries left
    pub step-budget :
        (id : Option String) (kit : FiniteKit P H) (made : AttemptRecord)
        → (step policy now run_handler id kit).0 ≡ ok (some made)
        → runs_budget (step policy now run_handler id kit).1.runs < runs_budget kit.runs
    unfolding step
    step-budget id kit made e = elim (Bool-cases (is_unknown id kit)) [
      | inl unknown ↦ absurd (ground (arith, e, unknown))
      | inr known ↦ elim (Option-cases (walk id kit.runs)) [
        | inl idle ↦ absurd (ground (arith, e, known, idle))
        | inr ((err x, after), walked) ↦ absurd (ground (arith, e, known, walked))
        | inr ((ok r, after), walked) ↦
            rw (known, walked, step) (step_runs-budget id kit.runs r after walked)
      ]
    ]

    -- a step that delivers nothing changes nothing
    pub step-idle :
        (id : Option String) (kit : FiniteKit P H)
        → (step policy now run_handler id kit).0 ≡ ok none
        → (step policy now run_handler id kit).1 ≡ kit
    unfolding step
    step-idle id kit e = elim (Bool-cases (is_unknown id kit)) [
      | inl unknown ↦ absurd (ground (arith, e, unknown))
      | inr known ↦ elim (Option-cases (walk id kit.runs)) [
        | inl idle ↦ rw (known, idle, step) refl
        | inr ((err x, after), walked) ↦ absurd (ground (arith, e, known, walked))
        | inr ((ok r, after), walked) ↦ absurd (ground (arith, e, known, walked))
      ]
    ]
