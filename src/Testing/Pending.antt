-- ===== src/Testing/Pending.antt =====
-- src/distributed_runtime/testing/finite.py: the loop of `run_pending` ends.
use ptf.Prelude.{
  ℕ, zero, ◌≤◌, ◌<◌, ◌≡◌, ◌∙◌, refl, suc, String, Option, none, some, List, [], ◌∷◌, length, arith,
  subst, ap, inl, inr,
}
use ptf.Core.Errors.{Result, Result-cases, ok, err, Error, ◌>>=◌, >>=-eq-ok}
use ptf.Core.Json.{JsonFields}
use ptf.Finite.Context.{ExecutionContext}
use ptf.Testing.Delivery.{AttemptRecord, CallEnd}
use ptf.Testing.FiniteKit.{FiniteKit, step, run_pending}
use ptf.Worker.Retry.{FinitePolicy}
use ptf.Testing.Spending.{runs_budget, step-budget, step-idle}

module _ {P H : Type 0} (policy : FinitePolicy) (now : ℕ)
    (run_handler : H → ExecutionContext → JsonFields → CallEnd) where
  -- how `run_pending` ends on a kit: its answer and the kit afterwards; unless it raises, no selected
  -- unit is deliverable any more, and it made no more deliveries than were left
  pub record IsDrained (fuel : ℕ) (id : Option String) (kit : FiniteKit P H) : Type 0 where
    pub answer : Result (List AttemptRecord)
    pub after : FiniteKit P H
    pub ended : run_pending policy now run_handler fuel id kit ≡ some (answer, after)
    pub drained :
        (records : List AttemptRecord)
        → answer ≡ ok records
        → (step policy now run_handler id after ≡ (ok none, after))
          × (length records ≤ runs_budget kit.runs)

  run_pending-raised :
      (fuel : ℕ) (id : Option String) (kit : FiniteKit P H) (x : Error)
      → (step policy now run_handler id kit).0 ≡ err x
      → IsDrained (suc fuel) id kit
  unfolding run_pending
  run_pending-raised fuel id kit x raised = record {
    answer = err x;
    after = (step policy now run_handler id kit).1;
    ended = rw (raised, run_pending) refl;
    drained = λ records e. absurd (cc);
  }

  run_pending-idle :
      (fuel : ℕ) (id : Option String) (kit : FiniteKit P H)
      → (step policy now run_handler id kit).0 ≡ ok none
      → IsDrained (suc fuel) id kit
  unfolding run_pending
  run_pending-idle fuel id kit idle = record {
    answer = ok [];
    after = kit;
    ended =
        rw (idle, run_pending)
          (ap (λ k. some (ok [], k)) (step-idle policy now run_handler id kit idle));
    drained = λ records e. (
      ap (λ a. (a, (step policy now run_handler id kit).1)) idle
          ∙ ap (λ k. (ok none, k)) (step-idle policy now run_handler id kit idle),
      ground (arith, e),
    );
  }

  run_pending-more :
      (fuel : ℕ) (id : Option String) (kit : FiniteKit P H) (made : AttemptRecord)
      → (step policy now run_handler id kit).0 ≡ ok (some made)
      → IsDrained fuel id (step policy now run_handler id kit).1
      → IsDrained (suc fuel) id kit
  unfolding run_pending
  run_pending-more fuel id kit made stepped rest = record {
    answer = rest.answer >>= λ records. ok (made ∷ records);
    after = rest.after;
    ended = rw (stepped, rest.ended, run_pending) refl;
    drained = λ records e.
        let (others, answered, same) = >>=-eq-ok rest.answer (λ rs. ok (made ∷ rs)) e in
        let (idle, few) = rest.drained others answered in
        (
          idle,
          subst (λ rs. length rs ≤ runs_budget kit.runs)
              (ap (λ r. elim r [ ok rs ↦ rs | err x ↦ records ]) same)
              (ground (arith, few, step-budget policy now run_handler id kit made stepped)),
        );
  }

  -- The loop of `run_pending` ends: given one step more than the deliveries that the units of the kit
  -- have left, it answers or a delivery raises; and when it answers, a further step finds nothing to
  -- deliver, and the records that it returns are no more than those deliveries. A unit that is ready
  -- or waits for a retry has the deliveries that its maximum of attempts leaves, or one if it leaves
  -- none; any other unit has none.
  pub run_pending_lem :
      (fuel : ℕ) (id : Option String) (kit : FiniteKit P H)
      → runs_budget kit.runs < fuel
      → IsDrained fuel id kit
  run_pending_lem zero id kit enough = absurd (omega arith)
  run_pending_lem (suc fuel) id kit enough =
      elim (Result-cases (step policy now run_handler id kit).0) [
        | inr (x, raised) ↦ run_pending-raised fuel id kit x raised
        | inl (none, idle) ↦ run_pending-idle fuel id kit idle
        | inl (some made, stepped) ↦ run_pending-more fuel id kit made stepped (
            run_pending_lem fuel id (step policy now run_handler id kit).1
              (ground (arith, enough, step-budget policy now run_handler id kit made stepped)))
      ]
