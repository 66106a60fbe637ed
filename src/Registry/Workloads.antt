-- ===== src/Registry/Workloads.antt =====
-- The workloads of `RuntimeRegistry`: identities, registration and look-up. A dictionary is the list
-- of its entries. A registration raises before it writes, so a refused one has no new registry.
use ptf.Prelude.{
  String, Bool, true, false, ◌==◌, ◌&&◌, ◌||◌, Option, none, some, List, [], ◌∷◌, ◌++◌, map, not,
}
use ptf.Prelude.Table.{find_where, exists_where, order_by}
use ptf.Core.Enums.{WorkloadMode}
use ptf.Core.Errors.{Result, ok, err, require, registration_error, ◌>>=◌, ◌>>◌}
use ptf.Core.Identifier.{IdentifierKind, identifier}
use ptf.Core.Text.{is_required, text_le}
use ptf.Registry.Version.{semantic_version}

abbrev pub same_mode : WorkloadMode → WorkloadMode → Bool
same_mode WorkloadMode.finite WorkloadMode.finite = true
same_mode WorkloadMode.continuous WorkloadMode.continuous = true
same_mode _ _ = false

-- `class WorkloadIdentity`
pub record WorkloadIdentity : Type 0 where
  pub application : String
  pub workload_name : String
  pub semantic_version : String
  pub mode : WorkloadMode

-- equality of the frozen dataclass
unfoldable pub identity_eq : WorkloadIdentity → WorkloadIdentity → Bool
identity_eq a b =
    (a.application == b.application && a.workload_name == b.workload_name)
    && (a.semantic_version == b.semantic_version && same_mode a.mode b.mode)

-- `<=` of modes, by their texts
abbrev mode_le : WorkloadMode → WorkloadMode → Bool
mode_le WorkloadMode.finite WorkloadMode.continuous = false
mode_le _ _ = true

abbrev text_lt : String → String → Bool
text_lt a b = text_le a b && not (a == b)

-- `<=` of the ordered dataclass
abbrev pub identity_le : WorkloadIdentity → WorkloadIdentity → Bool
identity_le a b =
    text_lt a.application b.application
    || (a.application == b.application
        && (text_lt a.workload_name b.workload_name
            || (a.workload_name == b.workload_name
                && (text_lt a.semantic_version b.semantic_version
                    || (a.semantic_version == b.semantic_version && mode_le a.mode b.mode)))))

-- the attributes `name`, `version` and `mode` of product code
pub record Declaration : Type 0 where
  pub name : Option String
  pub version : Option String
  pub mode : Option WorkloadMode

abbrev declares_text : Option String → String → Bool
declares_text none t = false
declares_text (some s) t = s == t

abbrev declares_mode : Option WorkloadMode → WorkloadMode → Bool
declares_mode none m = false
declares_mode (some n) m = same_mode n m

-- `declared == expected`
abbrev pub declares : Declaration → String → String → WorkloadMode → Bool
declares d name version mode =
    declares_text d.name name && (declares_text d.version version && declares_mode d.mode mode)

-- `_validate_declaration`
unfoldable pub validate_declaration :
    Declaration → String → String → WorkloadMode → Result (Unit {0})
validate_declaration d name version mode =
    require (declares d name version mode)
      (registration_error "workload declaration does not match registration")

-- `_required`
unfoldable pub required : String → Result String
required value = do
  require (is_required value) (registration_error "must be a non-empty trimmed string")
  ok value

-- `class FiniteRegistration`
pub record FiniteRegistration (P H : Type 0) : Type 0 where
  pub application : String
  pub name : String
  pub semantic_version : String
  pub execution_class : String
  pub planner : P
  pub handler : H

-- `class ContinuousRegistration`
pub record ContinuousRegistration (W : Type 0) : Type 0 where
  pub application : String
  pub name : String
  pub semantic_version : String
  pub execution_class : String
  pub workload : W

-- `type WorkloadRegistration`
pub data WorkloadRegistration (P H W : Type 0) : Type 0 where
  finite : FiniteRegistration P H → WorkloadRegistration P H W
  continuous : ContinuousRegistration W → WorkloadRegistration P H W

-- `class RuntimeRegistry`
pub record RuntimeRegistry (P H W S : Type 0) : Type 0 where
  pub application : String
  pub workloads : List (WorkloadIdentity × WorkloadRegistration P H W)
  pub sinks : List (String × S)

module _ {P H W : Type 0} where
  abbrev pub identity_of : WorkloadRegistration P H W → WorkloadIdentity
  identity_of (WorkloadRegistration.finite r) = record {
    application = r.application;
    workload_name = r.name;
    semantic_version = r.semantic_version;
    mode = WorkloadMode.finite;
  }
  identity_of (WorkloadRegistration.continuous r) = record {
    application = r.application;
    workload_name = r.name;
    semantic_version = r.semantic_version;
    mode = WorkloadMode.continuous;
  }

  abbrev pub has_identity : WorkloadIdentity → WorkloadIdentity × WorkloadRegistration P H W → Bool
  has_identity i entry = identity_eq entry.0 i

  abbrev pub found_entry :
      Option (WorkloadIdentity × WorkloadRegistration P H W) → Result (WorkloadRegistration P H W)
  found_entry none = err (registration_error "unknown workload")
  found_entry (some entry) = ok entry.1

  module _ {S : Type 0} where
    -- `RuntimeRegistry(application=...)`
    unfoldable pub runtime_registry : String → Result (RuntimeRegistry P H W S)
    runtime_registry application = identifier IdentifierKind.workload_id application >>= λ a.
        ok (record { application = a; workloads = []; sinks = [] })

    -- `_add_workload`
    unfoldable pub add_workload :
        WorkloadRegistration P H W → RuntimeRegistry P H W S → Result (RuntimeRegistry P H W S)
    add_workload registration r = do
      let i = identity_of registration
      require (not (exists_where (has_identity i) r.workloads))
          (registration_error "workload already registered")
      ok (record r { workloads = r.workloads ++ (i, registration) ∷ [] })

    -- `register_finite`
    unfoldable pub register_finite :
        (P → Declaration)
        → String
        → String
        → String
        → P
        → H
        → RuntimeRegistry P H W S
        → Result (FiniteRegistration P H × RuntimeRegistry P H W S)
    unfolding add_workload required validate_declaration
    register_finite declaration name version execution_class planner handler r = do
      id ← identifier IdentifierKind.workload_id name
      v ← semantic_version version
      cls ← required execution_class
      let registration : FiniteRegistration P H = record {
        application = r.application;
        name = id;
        semantic_version = v;
        execution_class = cls;
        planner = planner;
        handler = handler;
      }
      validate_declaration (declaration planner) id v WorkloadMode.finite
      r' ← add_workload (WorkloadRegistration.finite registration) r
      ok (registration, r')

    -- `register_continuous`
    unfoldable pub register_continuous :
        (W → Declaration)
        → String
        → String
        → String
        → W
        → RuntimeRegistry P H W S
        → Result (ContinuousRegistration W × RuntimeRegistry P H W S)
    unfolding add_workload required validate_declaration
    register_continuous declaration name version execution_class work r = do
      id ← identifier IdentifierKind.workload_id name
      v ← semantic_version version
      cls ← required execution_class
      let registration : ContinuousRegistration W = record {
        application = r.application;
        name = id;
        semantic_version = v;
        execution_class = cls;
        workload = work;
      }
      validate_declaration (declaration work) id v WorkloadMode.continuous
      r' ← add_workload (WorkloadRegistration.continuous registration) r
      ok (registration, r')

    -- `workload`
    unfoldable pub workload :
        String
        → String
        → WorkloadMode
        → RuntimeRegistry P H W S
        → Result (WorkloadRegistration P H W)
    workload name version mode r = do
      id ← identifier IdentifierKind.workload_id name
      v ← semantic_version version
      found_entry (
          find_where
            (has_identity (record {
              application = r.application;
              workload_name = id;
              semantic_version = v;
              mode = mode;
            }))
            r.workloads)

    -- `workloads`
    unfoldable pub sorted_workloads : RuntimeRegistry P H W S → List (WorkloadRegistration P H W)
    sorted_workloads r = map (λ e. e.1) (order_by (λ a b. identity_le a.0 b.0) r.workloads)
