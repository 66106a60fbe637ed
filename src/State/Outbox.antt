-- ===== src/State/Outbox.antt =====
-- The outbox: src/distributed_runtime/state/outbox.py.
pub mod Dedup
pub mod Sending
pub mod Drain
use ptf.Prelude.{
  ℕ, suc, ◌+◌, String, Bool, true, false, ◌==◌, ◌&&◌, Option, none, some, List, [], ◌∷◌, ◌++◌, map,
  take, ltb, leb, nat_eq, if◌then◌else◌,
}
use ptf.Prelude.Table.{find_where, update_where, count_where, exists_where, select_where, order_by}
use ptf.Core.Envelope.{VersionedEnvelope}
use ptf.Core.Errors.{Result, ok, err, Error, lookup_error, assertion_error}
use ptf.State.Db.{Db, OutboxRow, OutboxStatus}
use ptf.State.Tx.{Tx, pure, query, or_raise, raise_if, ◌>>=◌, ◌>>◌}

-- `class OutboxMessage`
pub record OutboxMessage : Type 0 where
  pub outbox_id : ℕ
  pub kind : String
  pub dedup_key : String
  pub destination : String
  pub envelope : VersionedEnvelope
  pub fencing_token : Option ℕ
  pub status : OutboxStatus
  pub attempts : ℕ
  pub created_at : ℕ

-- `_row_to_message`
abbrev pub row_to_message : OutboxRow → OutboxMessage
row_to_message r = record {
  outbox_id = r.outbox_id;
  kind = r.kind;
  dedup_key = r.dedup_key;
  destination = r.destination;
  envelope = r.envelope;
  fencing_token = r.fencing_token;
  status = r.status;
  attempts = r.attempts;
  created_at = r.created_at;
}

-- `GREATEST`, which passes over NULL
abbrev pub greatest : Option ℕ → Option ℕ → Option ℕ
greatest none b = b
greatest (some a) none = some a
greatest (some a) (some b) = if ltb a b then some b else some a

-- the key of the UNIQUE constraint
abbrev pub has_dedup : String → String → OutboxRow → Bool
has_dedup kind key r = r.kind == kind && r.dedup_key == key

abbrev pub has_outbox_id : ℕ → OutboxRow → Bool
has_outbox_id n r = nat_eq r.outbox_id n

abbrev pub raise_token : Option ℕ → OutboxRow → OutboxRow
raise_token token r = record r { fencing_token = greatest r.fencing_token token }

-- `INSERT ... ON CONFLICT (kind, dedup_key) DO UPDATE`; the number is drawn in either case.
unfoldable pub upsert_outbox : OutboxRow → Db → Db
upsert_outbox row db = record db {
  next_outbox_id = suc db.next_outbox_id;
  outbox =
      if exists_where (has_dedup row.kind row.dedup_key) db.outbox
      then update_where (has_dedup row.kind row.dedup_key) (raise_token row.fencing_token) db.outbox
      else db.outbox ++ row ∷ [];
}

abbrev pub pending_row : ℕ → ℕ → String → String → String → VersionedEnvelope → Option ℕ → OutboxRow
pending_row id now kind dedup_key destination envelope token = record {
  outbox_id = id;
  kind = kind;
  dedup_key = dedup_key;
  destination = destination;
  envelope = envelope;
  fencing_token = token;
  status = OutboxStatus.pending;
  attempts = 0;
  created_at = now;
}

abbrev id_of : Option OutboxRow → Option ℕ
id_of none = none
id_of (some r) = some r.outbox_id

unfoldable pub insert_outbox : ℕ → String → String → String → VersionedEnvelope → Option ℕ → Tx ℕ
unfolding upsert_outbox
insert_outbox now kind dedup_key destination envelope token = do
  id ← query (λ db. db.next_outbox_id)
  (λ db. pure tt (upsert_outbox (pending_row id now kind dedup_key destination envelope token) db))
  found ← query (λ db. id_of (find_where (has_dedup kind dedup_key) db.outbox))
  or_raise found assertion_error

abbrev pub is_pending : OutboxRow → Bool
is_pending r = waits r.status
  where
    waits : OutboxStatus → Bool
    waits OutboxStatus.pending = true
    waits _ = false

-- `OutboxStore.pending`
unfoldable pub pending : ℕ → Tx (List OutboxMessage)
pending limit = query (λ db. map row_to_message (
    take limit (order_by (λ a b. leb a.outbox_id b.outbox_id) (select_where is_pending db.outbox))))

abbrev pub publish_row : OutboxRow → OutboxRow
publish_row r = record r { status = OutboxStatus.published }

-- `OutboxStore.mark_published`
unfoldable pub mark_published : ℕ → Tx (Unit {0})
mark_published id = do
  changed ← query (λ db. count_where (has_outbox_id id) db.outbox)
  (λ db. pure tt (record db { outbox = update_where (has_outbox_id id) publish_row db.outbox }))
  raise_if (nat_eq changed 0) (lookup_error "unknown outbox message")

abbrev pub fail_row : OutboxRow → OutboxRow
fail_row r = record r { status = OutboxStatus.failed; attempts = r.attempts + 1 }

-- `OutboxStore.mark_failed`
unfoldable pub mark_failed : ℕ → Tx (Unit {0})
mark_failed id db =
    pure tt (record db { outbox = update_where (has_outbox_id id) fail_row db.outbox })

-- the body of the loop in `dispatch`, and the number that it adds to `sent`; `sender` tells whether
-- the call of the sender returns
unfoldable pub dispatch_one : (OutboxMessage → Bool) → OutboxMessage → Tx ℕ
unfolding mark_published mark_failed
dispatch_one sender message =
    if sender message
    then (mark_published message.outbox_id >> pure 1)
    else (mark_failed message.outbox_id >> pure 0)

unfoldable pub dispatch_all : (OutboxMessage → Bool) → List OutboxMessage → Tx ℕ
unfolding dispatch_one
dispatch_all sender [] = pure 0
dispatch_all sender (m ∷ ms) = do
  n ← dispatch_one sender m
  rest ← dispatch_all sender ms
  pure (n + rest)

-- `OutboxStore.dispatch`
unfoldable pub dispatch : (OutboxMessage → Bool) → ℕ → Tx ℕ
unfolding pending dispatch_all
dispatch sender limit = pending limit >>= dispatch_all sender
