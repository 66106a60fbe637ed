-- ===== src/Examples/Registered.antt =====
-- A registry with one finite workload, and a worker that handles a wake-up with it.
use ptf.Prelude.{
  ◌≡◌, ◌↔◌, ◌≤◌, refl, String, true, ◌==◌, ◌&&◌, none, some, [], ◌∷◌, length, if◌then◌else◌,
}
use ptf.Prelude.Table.{find_where, exists_where}
use ptf.Core.Enums.{WorkloadMode}
use ptf.Core.Envelope.{VersionedEnvelope}
use ptf.Core.Errors.{ok, err, registration_error}
use ptf.Core.Failure.{Failure}
use ptf.Core.Identifier.{IdentifierKind, identifier, identifier_iff, max_length}
use ptf.Core.Json.{JsonValue, JsonFields}
use ptf.Core.Name.{matches_name, codes}
use ptf.Core.Text.{split_on, is_trimmed, is_required}
use ptf.Registry.Version.{matches_version, semantic_version}
use ptf.Registry.Workloads.{
  same_mode, identity_eq, Declaration, FiniteRegistration, WorkloadRegistration, RuntimeRegistry,
  identity_of, register_finite, workload, runtime_registry,
}
use ptf.Registry.Lookup.{register_finite_lem, query}
use ptf.Registry.Modes.{Built, workload_lem}
use ptf.State.Db.{Db}
use ptf.State.Finite.Exclusion.{claimed, running_row, claim_unit-IsKeyed, claim_unit-granted}
use ptf.State.Finite.Runs.{has_run_id}
use ptf.State.Finite.Plan.{has_key, latest_plan}
use ptf.State.Finite.Claim.{claim_unit}
use ptf.Finite.Context.{ExecutionContext}
use ptf.Worker.Execute.{FiniteWorker}
use ptf.Worker.Handle.{Times, handle_envelope, unit_key_of}
use ptf.Worker.Retry.{default_policy}
use ptf.Worker.Settle.{Attempted}
use ptf.Core.Json.{is_finite}
use ptf.Worker.Retry.{classify_error}
use ptf.Worker.Settled.{settled_row, encodes, IsSettled}
use ptf.Worker.Delivery.{handle_envelope_lem}
use ptf.Worker.Unregistered.{handle_envelope_unregistered}
use ptf.Examples.Data.{run_row, planned_a, waiting, finite_db, envelope, one_unit}

identifier_iff_example :
    (identifier IdentifierKind.run_id "r1" ≡ ok "r1")
    ↔ ((matches_name (codes "r1") ≡ true) × (length (codes "r1") ≤ max_length))
identifier_iff_example = identifier_iff IdentifierKind.run_id "r1"

-- a planner is its declaration, and a handler is how its calls end
abbrev Registered : Type 0
Registered = RuntimeRegistry Declaration Attempted Declaration String

abbrev counts : Declaration
counts = record { name = some "count"; version = some "1.0.0"; mode = some WorkloadMode.finite }

abbrev slow : Attempted
slow = Attempted.raised (Failure.unexpected "OSError" "slow")

abbrev no_workloads : Registered
no_workloads = record { application = "app"; workloads = []; sinks = [] }

abbrev count_slowly : FiniteRegistration Declaration Attempted
count_slowly = record {
  application = "app";
  name = "count";
  semantic_version = "1.0.0";
  execution_class = "small";
  planner = counts;
  handler = slow;
}

abbrev one_workload : Registered
one_workload = record no_workloads {
  workloads =
      (
        identity_of {W = Declaration} (WorkloadRegistration.finite count_slowly),
        WorkloadRegistration.finite count_slowly,
      )
      ∷ [];
}

accepted :
    register_finite (λ d. d) "count" "1.0.0" "small" counts slow no_workloads
    ≡ ok (count_slowly, one_workload)
unfolding register_finite identifier semantic_version matches_version split_on exists_where
    is_trimmed matches_name is_required identity_eq
accepted = refl

-- a second registration of the name and the version is refused
refused :
    register_finite (λ d. d) "count" "1.0.0" "other" counts slow one_workload
    ≡ err (registration_error "workload already registered")
unfolding register_finite identifier semantic_version matches_version split_on exists_where
    is_trimmed matches_name is_required identity_eq
refused = refl

register_finite_lem_example :
    ((m w : String) (mode : WorkloadMode)
      → workload m w mode one_workload ≡ (
          if ("count" == m && "1.0.0" == w) && same_mode WorkloadMode.finite mode
          then ok (WorkloadRegistration.finite count_slowly)
          else workload m w mode no_workloads))
    × (counts ≡ counts)
    × (slow ≡ slow)
    × (count_slowly.execution_class ≡ "small")
register_finite_lem_example =
    register_finite_lem (λ d. d) "count" "1.0.0" "small" counts slow count_slowly no_workloads
      one_workload accepted

created : runtime_registry "app" ≡ ok no_workloads
unfolding runtime_registry identifier is_trimmed matches_name
created = refl

found_count :
    workload "count" "1.0.0" WorkloadMode.finite one_workload
    ≡ ok (WorkloadRegistration.finite count_slowly)
unfolding workload identifier semantic_version matches_version split_on find_where is_trimmed
    matches_name identity_eq
found_count = refl

workload_lem_example :
    identity_of {W = Declaration} (WorkloadRegistration.finite count_slowly)
    ≡ query "app" "count" "1.0.0" WorkloadMode.finite
workload_lem_example =
    workload_lem (λ d. d) (λ d. d) one_workload "count" "1.0.0" WorkloadMode.finite
      (WorkloadRegistration.finite count_slowly)
      (Built.finite "count" "1.0.0" "small" counts slow count_slowly no_workloads one_workload
        accepted (Built.created "app" no_workloads created))
      found_count

abbrev worker : FiniteWorker
worker = record { instance_id = "w1"; policy = default_policy; pool_revision = none }

abbrev times : Times
times = record { claim = 10; monotonic = 0; settled = 20 }

abbrev wake_up : VersionedEnvelope
wake_up = record envelope {
  payload = some (JsonFields.field "unit_key" (JsonValue.text "a") JsonFields.end);
}

abbrev call : Attempted → ExecutionContext → JsonFields → Attempted
call handler context payload = handler

abbrev alone : Db → Db
alone db = db

known_unit : find_where (has_key "r1" "a") finite_db.units ≡ some waiting
unfolding find_where
known_unit = refl

wake_up_run : identifier IdentifierKind.run_id wake_up.run_id ≡ ok "r1"
unfolding identifier is_trimmed matches_name
wake_up_run = refl

wake_up_key : unit_key_of (λ v. "") wake_up ≡ "a"
unfolding unit_key_of
wake_up_key = refl

named_a : matches_name (codes "a") ≡ true
unfolding matches_name
named_a = refl

planned : latest_plan "r1" "a" finite_db.plan_units ≡ some planned_a
unfolding latest_plan
planned = refl

of_run : find_where (has_run_id "r1") finite_db.runs ≡ some run_row
unfolding find_where
of_run = refl

kept :
    find_where (has_key "r1" "a") (claim_unit 10 "w1" "r1" "a" 120 finite_db).1.units
    ≡ some (running_row 10 "w1" 120 waiting planned_a)
kept =
    (claim_unit-granted 10 "w1" "r1" "a" 120 finite_db waiting (one_unit waiting) known_unit
      planned_a planned refl).1

finite_slow :
    encodes (λ n t. t) 20 default_policy (claimed 10 "w1" 120 waiting planned_a) slow ≡ true
unfolding is_finite classify_error
finite_slow = refl

handle_envelope_lem_example :
    let c = claimed 10 "w1" 120 waiting planned_a in
    let held = running_row 10 "w1" 120 waiting planned_a in
    let after =
      (handle_envelope
        (λ t. t)
        (λ n t. t)
        one_workload
        worker
        call
        (λ v. "")
        times
        alone
        wake_up
        finite_db).1 in
    let row = settled_row (λ n t. t) 20 default_policy c slow held in
    (find_where (has_key "r1" "a") after.units ≡ some row)
    × IsSettled (λ n t. t) 20 default_policy c held row
handle_envelope_lem_example =
    handle_envelope_lem (λ t. t) (λ n t. t) one_workload worker call times alone finite_db waiting
      planned_a run_row count_slowly (one_unit waiting) known_unit planned refl of_run found_count
      named_a (claim_unit-IsKeyed 10 "w1" "r1" "a" 120 finite_db (one_unit waiting)) kept
      finite_slow (λ v. "") wake_up wake_up_run wake_up_key refl

unknown :
    workload "count" "1.0.0" WorkloadMode.finite no_workloads
    ≡ err (registration_error "unknown workload")
unfolding workload identifier semantic_version matches_version split_on find_where is_trimmed
    matches_name
unknown = refl

handle_envelope_unregistered_example :
    let (answer, after) =
      handle_envelope
        (λ t. t)
        (λ n t. t)
        no_workloads
        worker
        call
        (λ v. "")
        times
        alone
        wake_up
        finite_db in
    (answer ≡ err (registration_error "unknown workload"))
    × (after.attempts ≡ finite_db.attempts)
    × (find_where (has_key "r1" "a") after.units ≡ some (running_row 10 "w1" 120 waiting planned_a))
handle_envelope_unregistered_example =
    handle_envelope_unregistered (λ t. t) (λ n t. t) no_workloads worker call (λ v. "") times alone
      wake_up finite_db waiting planned_a run_row (registration_error "unknown workload")
      (one_unit waiting) known_unit planned refl of_run unknown wake_up_run wake_up_key refl
