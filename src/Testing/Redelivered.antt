-- ===== src/Testing/Redelivered.antt =====
-- src/distributed_runtime/testing/finite.py: what `redeliver` leaves as it was.
use ptf.Prelude.{
  ℕ, ◌≡◌, ◌∙◌, refl, sym, ap, String, true, false, Option, none, some, List, [], ◌∷◌, map, nat_eq,
  Bool-cases, inl, inr, Option-cases,
}
use ptf.Core.Errors.{Result, ok, err}
use ptf.Core.Json.{JsonFields}
use ptf.Finite.Context.{ExecutionContext}
use ptf.Testing.Delivery.{AttemptRecord, UnitState, CallEnd}
use ptf.Testing.FiniteKit.{RunState, FiniteKit, is_selected, is_unknown, behind, delivered}
use ptf.Testing.Spending.{some_pair, behind-inv}
use ptf.Worker.Retry.{FinitePolicy}
use ptf.Testing.Redelivery.{count_matches, repeat_units, repeat_runs, redeliver}
use ptf.Testing.Settling.{settled_unit, repeat_units-settled}

-- a run without its records of attempts, and its units without their numbers of attempts
abbrev pub settled_run : {P H : Type 0} → String × RunState P H → String × RunState P H
settled_run (name, state) =
    (name, record state { units = map settled_unit state.units; attempts = [] })

module _ (policy : FinitePolicy) (now : ℕ) {P H : Type 0}
    (run_handler : H → ExecutionContext → JsonFields → CallEnd) where
  delivered-settled :
      (name : String) (state : RunState P H) (answer : Result AttemptRecord)
      (units : List UnitState)
      → map settled_unit units ≡ map settled_unit state.units
      → settled_run (name, delivered policy now run_handler state answer units)
        ≡ settled_run (name, state)
  delivered-settled name state (err e) units same =
      ap (λ us. (name, record state { units = us; attempts = [] })) same
  delivered-settled name state (ok made) units same =
      ap (λ us. (name, record state { units = us; attempts = [] })) same

  abbrev walk :
      Option String
      → String
      → List (String × RunState P H)
      → Option (Result AttemptRecord × List (String × RunState P H))
  walk = repeat_runs policy now run_handler

  repeat_runs-passed :
      (id : Option String) (key name : String) (state : RunState P H)
      (entries : List (String × RunState P H))
      → repeat_units policy now run_handler key state state.units ≡ none
      → walk id key ((name, state) ∷ entries) ≡ behind (name, state) (walk id key entries)
  unfolding repeat_runs
  repeat_runs-passed id key name state entries absent =
      elim (Bool-cases (is_selected id (name, state))) [
        | inl taken ↦ rw (taken, absent, repeat_runs) refl
        | inr other ↦ rw (other, repeat_runs) refl
      ]

  repeat_runs-other :
      (id : Option String) (key name : String) (state : RunState P H)
      (entries : List (String × RunState P H))
      → is_selected id (name, state) ≡ false
      → walk id key ((name, state) ∷ entries) ≡ behind (name, state) (walk id key entries)
  unfolding repeat_runs
  repeat_runs-other id key name state entries other = rw (other, repeat_runs) refl

  repeat_runs-delivered :
      (id : Option String) (key name : String) (state : RunState P H)
      (entries : List (String × RunState P H)) (answer : Result AttemptRecord)
      (units : List UnitState)
      → is_selected id (name, state) ≡ true
      → repeat_units policy now run_handler key state state.units ≡ some (answer, units)
      → walk id key ((name, state) ∷ entries)
        ≡ some (answer, (name, delivered policy now run_handler state answer units) ∷ entries)
  unfolding repeat_runs
  repeat_runs-delivered id key name state entries answer units taken given =
      rw (taken, given, repeat_runs) refl

  repeat_runs-settled :
      (id : Option String) (key : String) (entries : List (String × RunState P H))
      (answer : Result AttemptRecord) (after : List (String × RunState P H))
      → walk id key entries ≡ some (answer, after)
      → map settled_run after ≡ map settled_run entries
  unfolding repeat_runs
  repeat_runs-settled id key [] answer after e = absurd (cc)
  repeat_runs-settled id key ((name, state) ∷ entries) answer after e =
      elim (Bool-cases (is_selected id (name, state))) [
        | inr other ↦
            behind_settled (repeat_runs-settled id key entries answer)
              (repeat_runs-other id key name state entries other)
        | inl taken ↦
            elim (Option-cases (repeat_units policy now run_handler key state state.units)) [
              | inl absent ↦
                  behind_settled (repeat_runs-settled id key entries answer)
                    (repeat_runs-passed id key name state entries absent)
              | inr ((made, units), given) ↦
                  let same =
                    (some_pair (
                      sym (repeat_runs-delivered id key name state entries made units taken given)
                      ∙ e)).1 in
                  sym (ap (map settled_run) same)
                  ∙ ap (λ x. x ∷ map settled_run entries)
                      (delivered-settled name state made units (
                        repeat_units-settled policy now run_handler key state state.units made units
                          given))
            ]
      ]
    where
      behind_settled :
          ((rest : List (String × RunState P H))
            → walk id key entries ≡ some (answer, rest)
            → map settled_run rest ≡ map settled_run entries)
          → walk id key ((name, state) ∷ entries) ≡ behind (name, state) (walk id key entries)
          → map settled_run after ≡ map settled_run ((name, state) ∷ entries)
      behind_settled keeps passed =
          let (rest, walked, same) =
            behind-inv (name, state) (walk id key entries) answer after (sym passed ∙ e) in
          sym (ap (map settled_run) same)
          ∙ ap (λ xs. settled_run (name, state) ∷ xs) (keeps rest walked)

  -- A redelivery, whatever it comes to, changes of a kit only the numbers of attempts of its units and
  -- the records of its attempts: no status, no result and no time of a next attempt.
  pub redeliver_lem :
      (key : String) (id : Option String) (kit : FiniteKit P H)
      → let after = (redeliver policy now run_handler key id kit).1 in
        (map settled_run after.runs ≡ map settled_run kit.runs)
        × (after.run_counter ≡ kit.run_counter)
  unfolding redeliver
  redeliver_lem key id kit = elim (Bool-cases (is_unknown id kit)) [
    | inl unknown ↦ rw (unknown, redeliver) (refl, refl)
    | inr known ↦ elim (Bool-cases (nat_eq (count_matches id key kit.runs) 1)) [
      | inr many ↦ rw (known, many, redeliver) (refl, refl)
      | inl one ↦ elim (Option-cases (walk id key kit.runs)) [
        | inl absent ↦ rw (known, one, absent, redeliver) (refl, refl)
        | inr ((answer, after), given) ↦
            rw (known, one, given, redeliver)
              (repeat_runs-settled id key kit.runs answer after given, refl)
      ]
    ]
  ]
