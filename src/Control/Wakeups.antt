-- ===== src/Control/Wakeups.antt =====
-- The wake-ups of due retries.
use ptf.Prelude.{ℕ, ◌≡◌, none, String, List, All}
use ptf.Core.Wire.{Stamp}
use ptf.Core.Errors.{ok}
use ptf.Core.Envelope.{VersionedEnvelope}
use ptf.State.Db.{Db}
use ptf.State.Tx.{Tx}
use ptf.State.Outbox.{insert_outbox}
use ptf.Control.Intents.{Keeps}
use ptf.Control.Due.{Announced}
use ptf.Control.Dispatcher.{
  OutboxDispatcher, DueRetry, retry_key, retry_envelope, enqueue_retry, enqueue_all,
}

module _ (decimal : ℕ → String) (dispatcher : OutboxDispatcher) (now : ℕ) (stamp : Stamp) where
  -- the envelope of the wake-up passes its checks
  abbrev pub Builds : DueRetry → Type 0
  Builds r = (envelope : VersionedEnvelope) × (retry_envelope dispatcher stamp r ≡ ok envelope)

  abbrev enqueue : DueRetry → Tx ℕ
  enqueue = enqueue_retry decimal dispatcher now stamp

  abbrev all_of : List DueRetry → Tx (Unit {0})
  all_of = enqueue_all decimal dispatcher now stamp

  abbrev send : DueRetry → VersionedEnvelope → Tx ℕ
  send r envelope =
      insert_outbox now "unit_dispatch" (retry_key decimal r.unit) dispatcher.dispatch_topic
        envelope none

  record Enqueues (rs : List DueRetry) (db : Db) : Type 0 where
    after : Db
    runs : all_of rs db ≡ (ok tt, after)
    keeps : Keeps db after
    announced : All (λ r. Announced decimal after r.unit) rs
