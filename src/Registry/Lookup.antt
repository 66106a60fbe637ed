-- ===== src/Registry/Lookup.antt =====
-- What a registration does to every look-up, and what the registry keeps.
use ptf.Prelude.{
  ◌≡◌, ◌↔◌, refl, sym, ap, ◌∙◌, subst, String, true, false, ◌==◌, ◌&&◌, some, List, [], ◌∷◌, ◌++◌,
  arith, eq_iff, eq_refl, if◌then◌else◌, inl, inr, ◌⊎◌,
}
use ptf.Prelude.Table.{find_where, exists_where}
use ptf.Core.Enums.{WorkloadMode}
use ptf.Core.Errors.{Result-cases, ok, err, Error}
use ptf.Core.Identifier.{IdentifierKind, identifier}
use ptf.Registry.Version.{semantic_version}
use ptf.Registry.Workloads.{
  same_mode, WorkloadIdentity, identity_eq, Declaration, FiniteRegistration, ContinuousRegistration,
  WorkloadRegistration, RuntimeRegistry, identity_of, has_identity, add_workload, register_finite,
  register_continuous, workload, required,
}

identity_eq_iff : (a b : WorkloadIdentity) → (identity_eq a b ≡ true) ↔ (a ≡ b)
unfolding identity_eq
identity_eq_iff a b = ground (
  arith,
  eq_iff a.application b.application,
  eq_iff a.workload_name b.workload_name,
  eq_iff a.semantic_version b.semantic_version,
)

abbrev pub query : String → String → String → WorkloadMode → WorkloadIdentity
query application name version mode = record {
  application = application;
  workload_name = name;
  semantic_version = version;
  mode = mode;
}

identifier-ok : (k : IdentifierKind) (v w : String) → identifier k v ≡ ok w → w ≡ v
unfolding identifier
identifier-ok k v w e = ground (arith, e)

semantic_version-ok : (v w : String) → semantic_version v ≡ ok w → w ≡ v
unfolding semantic_version
semantic_version-ok v w e = ground (arith, e)

pub identifier-cases :
    (k : IdentifierKind) (v : String)
    → (identifier k v ≡ ok v) ⊎ ((e : Error) × (identifier k v ≡ err e))
identifier-cases k v = elim (Result-cases (identifier k v)) [
  | inl (w, e) ↦ inl (e ∙ ap ok (identifier-ok k v w e))
  | inr (raised, e) ↦ inr (raised, e)
]

pub semantic_version-cases :
    (v : String) → (semantic_version v ≡ ok v) ⊎ ((e : Error) × (semantic_version v ≡ err e))
semantic_version-cases v = elim (Result-cases (semantic_version v)) [
  | inl (w, e) ↦ inl (e ∙ ap ok (semantic_version-ok v w e))
  | inr (raised, e) ↦ inr (raised, e)
]

identity_eq-query :
    (a name version m w : String) (k mode : WorkloadMode)
    → identity_eq (query a name version k) (query a m w mode)
      ≡ ((name == m && version == w) && same_mode k mode)
unfolding identity_eq
identity_eq-query a name version m w k mode = ground (arith, eq_refl a)

module _ {P H W : Type 0} where
  find-added :
      (i j : WorkloadIdentity) (registration : WorkloadRegistration P H W)
      (xs : List (WorkloadIdentity × WorkloadRegistration P H W))
      → exists_where (has_identity j) xs ≡ false
      → find_where (has_identity i) (xs ++ (j, registration) ∷ [])
        ≡ (if identity_eq j i then some (j, registration) else find_where (has_identity i) xs)
  unfolding find_where exists_where
  find-added i j registration [] fresh = ground arith
  find-added i j registration (x ∷ xs) fresh = ground (
    arith,
    fresh,
    find-added i j registration xs,
    identity_eq_iff j i,
    identity_eq_iff x.0 i,
    identity_eq_iff x.0 j,
  )

module _ {P H W S : Type 0} where
  -- a step that added `registration`
  record Added (registration : WorkloadRegistration P H W) (r r' : RuntimeRegistry P H W S)
      : Type 0 where
    fresh : exists_where (has_identity (identity_of registration)) r.workloads ≡ false
    stored :
        r' ≡ record r { workloads = r.workloads ++ (identity_of registration, registration) ∷ [] }

  add_workload-Added :
      (registration : WorkloadRegistration P H W) (r r' : RuntimeRegistry P H W S)
      → add_workload registration r ≡ ok r'
      → Added registration r r'
  unfolding add_workload
  add_workload-Added registration r r' e = record {
    fresh = ground (arith, e);
    stored = ground (arith, e);
  }

  -- a registration that succeeded
  pub record Registers (registration : WorkloadRegistration P H W) (name version : String)
      (r r' : RuntimeRegistry P H W S) : Type 0 where
    pub named : identifier IdentifierKind.workload_id name ≡ ok name
    pub versioned : semantic_version version ≡ ok version
    pub added : add_workload registration r ≡ ok r'
    pub placed :
        identity_of registration ≡ query r.application name version (identity_of registration).mode

  pub register_finite-Registers :
      (declaration : P → Declaration) (name version execution_class : String) (planner : P)
      (handler : H) (registration : FiniteRegistration P H) (r r' : RuntimeRegistry P H W S)
      → register_finite declaration name version execution_class planner handler r
        ≡ ok (registration, r')
      → Registers (WorkloadRegistration.finite registration) name version r r'
  unfolding register_finite
  register_finite-Registers declaration name version execution_class planner handler registration r
        r' e =
      elim (identifier-cases IdentifierKind.workload_id name) [
        | inr (raised, wrong) ↦ absurd (ground (arith, wrong, e))
        | inl named ↦ elim (semantic_version-cases version) [
          | inr (raised, wrong) ↦ absurd (ground (arith, wrong, named, e))
          | inl versioned ↦ record {
            named = named;
            versioned = versioned;
            added = ground (arith, e, named, versioned);
            placed = ground (arith, e, named, versioned);
          }
        ]
      ]

  pub register_continuous-Registers :
      (declaration : W → Declaration) (name version execution_class : String) (work : W)
      (registration : ContinuousRegistration W) (r r' : RuntimeRegistry P H W S)
      → register_continuous declaration name version execution_class work r ≡ ok (registration, r')
      → Registers (WorkloadRegistration.continuous registration) name version r r'
  unfolding register_continuous
  register_continuous-Registers declaration name version execution_class work registration r r' e =
      elim (identifier-cases IdentifierKind.workload_id name) [
        | inr (raised, wrong) ↦ absurd (ground (arith, wrong, e))
        | inl named ↦ elim (semantic_version-cases version) [
          | inr (raised, wrong) ↦ absurd (ground (arith, wrong, named, e))
          | inl versioned ↦ record {
            named = named;
            versioned = versioned;
            added = ground (arith, e, named, versioned);
            placed = ground (arith, e, named, versioned);
          }
        ]
      ]

  -- a look-up in a registry that a registration was added to
  pub Registers-workload :
      (registration : WorkloadRegistration P H W) (name version : String)
      (r r' : RuntimeRegistry P H W S) (m w : String) (mode : WorkloadMode)
      → Registers registration name version r r'
      → workload m w mode r' ≡ (
          if (name == m && version == w) && same_mode (identity_of registration).mode mode
          then ok registration
          else workload m w mode r)
  unfolding workload
  Registers-workload registration name version r r' m w mode done =
      elim (identifier-cases IdentifierKind.workload_id m) [
        | inr (raised, wrong) ↦
            let apart : (name == m) ≡ false = ground (arith, wrong, done.named, eq_iff name m) in
            rw (wrong, apart) refl
        | inl named ↦ elim (semantic_version-cases w) [
          | inr (raised, wrong) ↦
              let apart : (version == w) ≡ false =
                ground (arith, wrong, done.versioned, eq_iff version w) in
              rw (named, wrong, apart) (ground arith)
          | inl versioned ↦
              let step = add_workload-Added registration r r' done.added in
              let i = query r.application m w mode in
              let test : identity_eq (identity_of registration) i ≡ (
                  (name == m && version == w) && same_mode (identity_of registration).mode mode) =
                subst
                  (λ j. identity_eq j i ≡ (
                    (name == m && version == w) && same_mode (identity_of registration).mode mode))
                  (sym done.placed)
                  (identity_eq-query r.application name version m w (identity_of registration).mode
                    mode) in
              rw
                (
                  named,
                  versioned,
                  step.stored,
                  find-added i (identity_of registration) registration r.workloads step.fresh,
                  test,
                )
                (ground arith)
        ]
      ]

  pub Registers-application :
      (registration : WorkloadRegistration P H W) (name version : String)
      (r r' : RuntimeRegistry P H W S)
      → Registers registration name version r r'
      → r'.application ≡ r.application
  Registers-application registration name version r r' done =
      ap (λ q. q.application) (add_workload-Added registration r r' done.added).stored

  -- A registration that succeeds is what every later look-up of its name and version in its mode
  -- returns, with the planner and the handler that it was given, until another one is added; every
  -- other look-up, refused ones included, answers as before.
  pub register_finite_lem :
      (declaration : P → Declaration) (name version execution_class : String) (planner : P)
      (handler : H) (registration : FiniteRegistration P H) (r r' : RuntimeRegistry P H W S)
      → register_finite declaration name version execution_class planner handler r
        ≡ ok (registration, r')
      → ((m w : String) (mode : WorkloadMode)
          → workload m w mode r' ≡ (
              if (name == m && version == w) && same_mode WorkloadMode.finite mode
              then ok (WorkloadRegistration.finite registration)
              else workload m w mode r))
        × (registration.planner ≡ planner)
        × (registration.handler ≡ handler)
        × (registration.execution_class ≡ execution_class)
  unfolding register_finite required
  register_finite_lem declaration name version execution_class planner handler registration r r' e =
      let done =
        register_finite-Registers declaration name version execution_class planner handler
          registration r r' e in
      (
        (λ m w mode.
            Registers-workload (WorkloadRegistration.finite registration) name version r r' m w mode
              done),
        ground (arith, e, done.named, done.versioned),
        ground (arith, e, done.named, done.versioned),
        ground (arith, e, done.named, done.versioned),
      )
