-- ===== src/Registry/Modes.antt =====
-- Every registry that the program can build answers a look-up with a registration of the name, the
-- version and the mode that were asked for.
use ptf.Prelude.{◌≡◌, ◌∙◌, subst, String, true, arith, inl, inr, Bool-cases, eq_iff, ◌==◌, ◌&&◌}
use ptf.Prelude.Table.{find_where}
use ptf.Core.Enums.{WorkloadMode}
use ptf.Core.Errors.{ok}
use ptf.Core.Identifier.{IdentifierKind}
use ptf.Registry.Workloads.{
  same_mode, Declaration, FiniteRegistration, ContinuousRegistration, WorkloadRegistration,
  RuntimeRegistry, identity_of, register_finite, register_continuous, workload, runtime_registry,
  required,
}
use ptf.Registry.Sinks.{register_sink}
use ptf.Registry.Lookup.{
  identifier-cases, semantic_version-cases, Registers-workload, register_finite-Registers,
  register_continuous-Registers, query, Registers, Registers-application,
}

same_mode-eq : (a b : WorkloadMode) → same_mode a b ≡ true → a ≡ b
same_mode-eq a b h = ground (arith, h)

module _ {P H W S : Type 0} (of_planner : P → Declaration) (of_workload : W → Declaration) where
  -- the registries that registrations build
  pub data Built : RuntimeRegistry P H W S → Type 0 where
    created :
        (application : String) (r : RuntimeRegistry P H W S)
        → runtime_registry application ≡ ok r
        → Built r
    finite :
        (name version execution_class : String) (planner : P) (handler : H)
        (registration : FiniteRegistration P H) (r r' : RuntimeRegistry P H W S)
        → register_finite of_planner name version execution_class planner handler r
          ≡ ok (registration, r')
        → Built r
        → Built r'
    continuous :
        (name version execution_class : String) (work : W) (registration : ContinuousRegistration W)
        (r r' : RuntimeRegistry P H W S)
        → register_continuous of_workload name version execution_class work r
          ≡ ok (registration, r')
        → Built r
        → Built r'
    with_sink :
        (name : String) (s : S) (r r' : RuntimeRegistry P H W S)
        → register_sink name s r ≡ ok r'
        → Built r
        → Built r'

  abbrev Answers : RuntimeRegistry P H W S → Type 0
  Answers r =
      (name version : String) (mode : WorkloadMode) (found : WorkloadRegistration P H W)
      → workload name version mode r ≡ ok found
      → identity_of found ≡ query r.application name version mode

  created-Answers :
      (application : String) (r : RuntimeRegistry P H W S)
      → runtime_registry application ≡ ok r
      → Answers r
  unfolding runtime_registry workload find_where
  created-Answers application r e name version mode found f =
      elim (identifier-cases IdentifierKind.workload_id name) [
        | inr (raised, wrong) ↦ absurd (ground (arith, wrong, f))
        | inl named ↦ elim (semantic_version-cases version) [
          | inr (raised, wrong) ↦ absurd (ground (arith, wrong, named, f))
          | inl versioned ↦ absurd (ground (arith, named, versioned, e, f))
        ]
      ]

  Registers-Answers :
      (registration : WorkloadRegistration P H W) (name version : String)
      (r r' : RuntimeRegistry P H W S)
      → Registers registration name version r r'
      → r'.application ≡ r.application
      → Answers r
      → Answers r'
  Registers-Answers registration name version r r' done same answers m w mode found f =
      let step = Registers-workload registration name version r r' m w mode done in
      let kind = (identity_of registration).mode in
      elim (Bool-cases ((name == m && version == w) && same_mode kind mode)) [
        | inl hit ↦
            let eqn : registration ≡ found = ground (arith, hit, step, f) in
            let placed : identity_of found
                ≡ query r.application name version (identity_of found).mode =
              subst (λ x. identity_of x ≡ query r.application name version (identity_of x).mode) eqn
                done.placed in
            let moded : (identity_of found).mode ≡ mode =
              subst (λ x. (identity_of x).mode ≡ mode) eqn
                (same_mode-eq kind mode (ground (arith, hit))) in
            placed ∙ ground (arith, hit, same, moded, eq_iff name m, eq_iff version w)
        | inr miss ↦ answers m w mode found (ground (arith, miss, step, f)) ∙ ground (arith, same)
      ]

  sink-Answers :
      (name : String) (k : S) (r r' : RuntimeRegistry P H W S)
      → register_sink name k r ≡ ok r'
      → Answers r
      → Answers r'
  unfolding register_sink workload required
  sink-Answers name k r r' e answers m w mode found f =
      let stored : r' ≡ record r { sinks = r'.sinks } = ground (arith, e) in
      let before : workload m w mode r ≡ ok found =
        subst (λ (q : RuntimeRegistry P H W S). workload m w mode q ≡ ok found) stored f in
      answers m w mode found before ∙ ground (arith, stored)

  Built-Answers : (r : RuntimeRegistry P H W S) → Built r → Answers r
  Built-Answers r (created application _ e) = created-Answers application r e
  Built-Answers r (finite name version cls planner handler registration s _ e before) =
      let done =
        register_finite-Registers of_planner name version cls planner handler registration s r e in
      Registers-Answers (WorkloadRegistration.finite registration) name version s r done
        (Registers-application (WorkloadRegistration.finite registration) name version s r done)
        (Built-Answers s before)
  Built-Answers r (continuous name version cls work registration s _ e before) =
      let done =
        register_continuous-Registers of_workload name version cls work registration s r e in
      Registers-Answers (WorkloadRegistration.continuous registration) name version s r done
        (Registers-application (WorkloadRegistration.continuous registration) name version s r done)
        (Built-Answers s before)
  Built-Answers r (with_sink name k s _ e before) =
      sink-Answers name k s r e (Built-Answers s before)

  -- A look-up that succeeds returns the registration of the name, the version and the mode that
  -- were asked for, in every registry that registrations build.
  pub workload_lem :
      (r : RuntimeRegistry P H W S) (name version : String) (mode : WorkloadMode)
      (found : WorkloadRegistration P H W)
      → Built r
      → workload name version mode r ≡ ok found
      → identity_of found ≡ query r.application name version mode
  workload_lem r name version mode found built e = Built-Answers r built name version mode found e
