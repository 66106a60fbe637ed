-- ===== src/Control/Planner.antt =====
-- The storing of plans: `_persist` and `_dispatch_envelope` of `PlannerRunner`,
-- src/distributed_runtime/control/planner.py. `sha256` is the hexadecimal digest of a text, `digest`
-- that of a payload.
use Prim.Native.String.{◌++◌}
use ptf.Prelude.{ℕ, suc, String, ◌==◌, none, some, List, [], ◌∷◌, nat_eq, if◌then◌else◌}
use ptf.Prelude.Table.{update_where, count_where}
use ptf.Core.Wire.{Stamp, Arguments, versioned_envelope}
use ptf.Core.Enums.{RunStatus}
use ptf.Core.Envelope.{VersionedEnvelope}
use ptf.Core.Errors.{Result}
use ptf.Core.Json.{ℤ, JsonFields, JsonValue}
use ptf.Finite.Unit.{ExecutionUnit, execution_id}
use ptf.State.Tx.{Tx, pure, lift, query, transaction, raise_if, ◌>>=◌, ◌>>◌}
use ptf.State.Finite.Runs.{StoredRun, request_of, set_status}
use ptf.State.Finite.Plan.{plan_row, insert_plan_row, insert_ready, plannable, not_plannable}
use ptf.State.Outbox.{insert_outbox}

-- the fields of a `PlannerRunner` that storing reads
pub record PlannerRunner : Type 0 where
  pub dispatch_topic : String
  pub application : String

-- `key or other` of texts
abbrev pub text_or : String → String → String
text_or key other = if key == "" then other else key

-- what `_dispatch_envelope` builds its envelope from
abbrev pub dispatch_arguments :
    (String → String) → PlannerRunner → Stamp → StoredRun → ExecutionUnit → Arguments
dispatch_arguments sha256 runner stamp run unit = record {
  schema_version = ℤ.pos 1;
  message_kind = "unit.dispatch";
  run_id = run.run_id;
  execution_id = execution_id sha256 unit (request_of run);
  idempotency_key = text_or unit.idempotency_key unit.unit_key;
  application = runner.application;
  workload = run.workload_name;
  workload_version = run.workload_version;
  handler = unit.handler;
  attempt_generation = ℤ.pos 1;
  execution_class = unit.execution_class;
  runtime_pool_revision = run.execution_revision;
  published_at = stamp.text;
  payload = some (JsonFields.field "unit_key" (JsonValue.text unit.unit_key) JsonFields.end);
  payload_ref = none;
  trace_context = [];
}

-- `_dispatch_envelope`: the checks of the envelope may refuse
unfoldable pub dispatch_envelope :
    (String → String) → PlannerRunner → Stamp → StoredRun → ExecutionUnit → Result VersionedEnvelope
unfolding versioned_envelope
dispatch_envelope sha256 runner stamp run unit =
    versioned_envelope stamp.offset_of stamp.encoded_size
      (dispatch_arguments sha256 runner stamp run unit)

-- the f-string of the `dedup_key`
abbrev pub dispatch_key : String → String → String
dispatch_key run key = run ++ (":" ++ key)

module _ (sha256 : String → String) (digest : JsonFields → String) (runner : PlannerRunner)
    (now : ℕ) (stamp : Stamp) (run : StoredRun) (generation : ℕ) where
  -- the body of the loop
  unfoldable pub persist_unit : ℕ → ExecutionUnit → Tx ℕ
  unfolding insert_plan_row insert_ready insert_outbox dispatch_envelope
  persist_unit ordinal unit =
      insert_plan_row (plan_row digest run.run_id generation ordinal unit)
      >> (insert_ready run.run_id unit.unit_key
          >> (lift (dispatch_envelope sha256 runner stamp run unit) >>= λ envelope.
              insert_outbox now "unit_dispatch" (dispatch_key run.run_id unit.unit_key)
                runner.dispatch_topic envelope none))

  -- the loop, from an ordinal on
  unfoldable pub persist_units : ℕ → List ExecutionUnit → Tx (Unit {0})
  unfolding persist_unit
  persist_units ordinal [] = pure tt
  persist_units ordinal (unit ∷ units) =
      persist_unit ordinal unit >>= λ _. persist_units (suc ordinal) units

  -- `UPDATE finite_runs SET status = 'running' ...`, with its row count
  unfoldable pub mark_running : Tx ℕ
  mark_running = do
    changed ← query (λ db. count_where (plannable run.run_id) db.runs)
    (λ db. pure tt (record db {
      runs = update_where (plannable run.run_id) (set_status RunStatus.running) db.runs;
    }))
    pure changed

  -- `_persist`. The test of `changed` stands behind the transaction, which is committed by then.
  unfoldable pub persist : List ExecutionUnit → Tx (Unit {0})
  unfolding persist_units mark_running
  persist units = do
    changed ← transaction (persist_units 0 units >> mark_running)
    raise_if (nat_eq changed 0) not_plannable
