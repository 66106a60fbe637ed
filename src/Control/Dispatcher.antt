-- ===== src/Control/Dispatcher.antt =====
-- Dispatch: `OutboxDispatcher` of src/distributed_runtime/control/dispatcher.py. `decimal` prints an
-- `int`; the sender tells whether its call returns.
use Prim.Native.String.{◌++◌}
use ptf.Prelude.{
  ℕ, ◌+◌, String, Bool, true, false, ◌&&◌, Option, none, some, List, [], ◌∷◌, take, leb, length,
}
use ptf.Prelude.Table.{find_where, select_where, order_by}
use ptf.Core.Wire.{Stamp, Arguments, versioned_envelope}
use ptf.Core.Enums.{is_retry_scheduled}
use ptf.Core.Envelope.{VersionedEnvelope}
use ptf.Core.Errors.{Result}
use ptf.Core.Json.{ℤ, JsonFields, JsonValue}
use ptf.State.Db.{Db, UnitRow, PlanRow, RunRow}
use ptf.State.Tx.{Tx, pure, lift, query, transaction, ◌>>=◌}
use ptf.State.Finite.Runs.{has_run_id}
use ptf.State.Finite.Plan.{latest_plan}
use ptf.State.Outbox.{OutboxMessage, insert_outbox, dispatch}

-- `class DispatchCycle`
pub record DispatchCycle : Type 0 where
  pub published : ℕ
  pub retries_enqueued : ℕ

-- the fields of an `OutboxDispatcher`
pub record OutboxDispatcher : Type 0 where
  pub application : String
  pub dispatch_topic : String

-- a row of the query: the unit, its latest plan row and its run
pub record DueRetry : Type 0 where
  pub unit : UnitRow
  pub plan : PlanRow
  pub run : RunRow

-- `u.status = 'retry_scheduled' AND u.next_attempt_at <= now()`
abbrev pub is_due_retry : ℕ → UnitRow → Bool
is_due_retry now u =
    is_retry_scheduled u.status && elim u.next_attempt_at [ none ↦ false | some t ↦ leb t now ]

-- `ORDER BY u.next_attempt_at`, of rows that have one
abbrev pub due_earlier : UnitRow → UnitRow → Bool
due_earlier a b = elim a.next_attempt_at [
  | none ↦ true
  | some s ↦ elim b.next_attempt_at [ none ↦ true | some t ↦ leb s t ]
]

abbrev pub joined : UnitRow → Option PlanRow → Option RunRow → List DueRetry → List DueRetry
joined u none r rest = rest
joined u (some p) none rest = rest
joined u (some p) (some r) rest = record { unit = u; plan = p; run = r } ∷ rest

-- the two joins
unfoldable pub join_rows : Db → List UnitRow → List DueRetry
join_rows db [] = []
join_rows db (u ∷ us) =
    joined u (latest_plan u.run_id u.unit_key db.plan_units)
      (find_where (has_run_id u.run_id) db.runs) (join_rows db us)

-- the query
unfoldable pub due_retries : ℕ → Db → List DueRetry
unfolding join_rows
due_retries now db =
    take 500 (join_rows db (order_by due_earlier (select_where (is_due_retry now) db.units)))

-- the f-string of the `dedup_key`
abbrev pub retry_key : (ℕ → String) → UnitRow → String
retry_key decimal u = u.run_id ++ (":" ++ (u.unit_key ++ (":retry:" ++ decimal u.attempt_count)))

-- what the wake-up of a retry is built from
abbrev pub retry_arguments : OutboxDispatcher → Stamp → DueRetry → Arguments
retry_arguments dispatcher stamp r = record {
  schema_version = ℤ.pos 1;
  message_kind = "unit.dispatch";
  run_id = r.unit.run_id;
  execution_id = r.unit.run_id ++ (":" ++ r.unit.unit_key);
  idempotency_key = r.unit.unit_key;
  application = dispatcher.application;
  workload = r.run.workload_name;
  workload_version = r.run.workload_version;
  handler = r.plan.unit.handler;
  attempt_generation = ℤ.pos (r.unit.attempt_count + 1);
  execution_class = r.plan.unit.execution_class;
  runtime_pool_revision = r.run.execution_revision;
  published_at = stamp.text;
  payload = some (JsonFields.field "unit_key" (JsonValue.text r.unit.unit_key) JsonFields.end);
  payload_ref = none;
  trace_context = [];
}

-- `VersionedEnvelope(...)`, whose checks may refuse
unfoldable pub retry_envelope : OutboxDispatcher → Stamp → DueRetry → Result VersionedEnvelope
unfolding versioned_envelope
retry_envelope dispatcher stamp r =
    versioned_envelope stamp.offset_of stamp.encoded_size (retry_arguments dispatcher stamp r)

module _ (decimal : ℕ → String) (dispatcher : OutboxDispatcher) (now : ℕ) (stamp : Stamp) where
  -- the body of the loop
  unfoldable pub enqueue_retry : DueRetry → Tx ℕ
  unfolding insert_outbox retry_envelope
  enqueue_retry r = lift (retry_envelope dispatcher stamp r) >>= λ envelope.
      insert_outbox now "unit_dispatch" (retry_key decimal r.unit) dispatcher.dispatch_topic
        envelope none

  unfoldable pub enqueue_all : List DueRetry → Tx (Unit {0})
  unfolding enqueue_retry
  enqueue_all [] = pure tt
  enqueue_all (r ∷ rs) = enqueue_retry r >>= λ _. enqueue_all rs

  -- `_enqueue_due_retries`
  unfoldable pub enqueue_due_retries : Tx ℕ
  unfolding due_retries enqueue_all
  enqueue_due_retries =
      transaction (query (due_retries now) >>= λ rows. enqueue_all rows >>= λ _. pure (length rows))

  unfoldable pub cycle : (OutboxMessage → Bool) → ℕ → Tx DispatchCycle
  unfolding enqueue_due_retries
  cycle sender limit = do
    enqueued ← enqueue_due_retries
    published ← dispatch sender limit
    pure (record { published = published; retries_enqueued = enqueued })
