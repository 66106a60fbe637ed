-- ===== src/Finite/Drift.antt =====
-- What `validate_plan` accepts.
use ptf.Prelude.{
  ℕ, suc, String, Bool, true, false, ◌==◌, ◌≡◌, refl, Option, none, some, List, [], ◌∷◌, All, arith,
  ◌↔◌, inl, inr,
}
use ptf.Prelude.Table.{IsUnique, exists_where}
use ptf.Core.Json.{JsonFields}
use ptf.Core.Errors.{Result-cases, ok}
use ptf.Finite.Unit.{
  ExecutionUnit, PlanningRecord, planning_records, records_eq→eq, records_eq_refl,
}
use ptf.Finite.Validate.{seen_digest, checkpoint, no_token, collect, meets_expected, validate_plan}

abbrev pub same_key : ExecutionUnit → ExecutionUnit → Bool
same_key u v = u.unit_key == v.unit_key

-- No unit's key is in the dictionary of the loop.
abbrev IsFresh : List (String × String) → List ExecutionUnit → Type 0
IsFresh seen = All (λ u. seen_digest u.unit_key seen ≡ none)

IsFresh-cons :
    (u : ExecutionUnit) (d : String) (seen : List (String × String)) (us : List ExecutionUnit)
    → IsFresh ((u.unit_key, d) ∷ seen) us
      ↔ ((exists_where (same_key u) us ≡ false) × IsFresh seen us)
unfolding seen_digest exists_where
IsFresh-cons u d seen [] = (λ h. (refl, tt), λ h. tt)
IsFresh-cons u d seen (v ∷ us) = ground (arith, IsFresh-cons u d seen us)

IsFresh-nil : (us : List ExecutionUnit) → IsFresh [] us
unfolding seen_digest
IsFresh-nil [] = tt
IsFresh-nil (u ∷ us) = (refl, IsFresh-nil us)

module _ (digest : JsonFields → String) (token : ℕ → Option String) where
  collect-ok :
      (n : ℕ) (seen : List (String × String)) (us vs : List ExecutionUnit)
      → collect digest token n seen us ≡ ok vs
      → (vs ≡ us) × IsUnique same_key us × IsFresh seen us
  unfolding collect checkpoint
  collect-ok n seen [] vs h = ground arith
  collect-ok n seen (u ∷ us) vs h =
      let seen' = (u.unit_key, digest u.payload) ∷ seen in
      elim (Result-cases (collect digest token (suc n) seen' us)) [
        | inl (ws, e) ↦
            let ih = collect-ok (suc n) seen' us ws e in
            ground (arith, ih, IsFresh-cons u (digest u.payload) seen us)
        | inr (x, e) ↦ absurd (ground (arith, e))
      ]

  collect-accepts :
      (n : ℕ) (seen : List (String × String)) (us : List ExecutionUnit)
      → ((k : ℕ) → token k ≡ none)
      → IsUnique same_key us
      → IsFresh seen us
      → collect digest token n seen us ≡ ok us
  unfolding collect checkpoint
  collect-accepts n seen [] live uniq fresh = ground (arith, live n)
  collect-accepts n seen (u ∷ us) live uniq fresh = ground (
    arith,
    live n,
    IsFresh-cons u (digest u.payload) seen us,
    collect-accepts (suc n) ((u.unit_key, digest u.payload) ∷ seen) us live uniq.1,
  )

  -- A plan is accepted only whole: the units come back as the planner yielded them, no two share a
  -- key, and their records are the durable ones where such are given.
  pub validate_plan-ok :
      (expected : Option (List PlanningRecord)) (emitted units : List ExecutionUnit)
      → validate_plan digest token expected emitted ≡ ok units
      → (units ≡ emitted)
        × IsUnique same_key units
        × (meets_expected expected (planning_records digest 0 units) ≡ true)
  unfolding validate_plan checkpoint
  validate_plan-ok expected emitted units h =
      elim (Result-cases (collect digest token 1 [] emitted)) [
        | inl (ws, e) ↦ ground (arith, collect-ok 1 [] emitted ws e)
        | inr (x, e) ↦ absurd (ground (arith, e))
      ]

-- Replanning detects drift exactly: against durable records, a planner that is not cancelled is
-- accepted if and only if its keys are distinct and it reproduces every record in order.
pub validate_plan-accepts_iff :
    (digest : JsonFields → String) (recorded : List PlanningRecord) (emitted : List ExecutionUnit)
    → (validate_plan digest no_token (some recorded) emitted ≡ ok emitted)
      ↔ (IsUnique same_key emitted × (planning_records digest 0 emitted ≡ recorded))
unfolding validate_plan checkpoint meets_expected
validate_plan-accepts_iff digest recorded emitted = (
  λ h.
      let r = validate_plan-ok digest no_token (some recorded) emitted emitted h in
      (r.1, records_eq→eq _ _ r.2),
  λ h. rw (
    collect-accepts digest no_token 1 [] emitted (λ k. refl) h.0 (IsFresh-nil emitted),
    h.1,
    records_eq_refl recorded,
  ),
)
