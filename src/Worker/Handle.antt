-- ===== src/Worker/Handle.antt =====
-- How a finite worker gets work: `handle_envelope` and `poll_once` of
-- src/distributed_runtime/worker/finite.py. `show` is Python's `str` of a JSON value that is not a
-- text.
use ptf.Prelude.{ℕ, String, Bool, Option, none, some, List, [], ◌∷◌, ◌==◌, if◌then◌else◌}
use ptf.Core.Envelope.{VersionedEnvelope}
use ptf.Core.Identifier.{IdentifierKind, identifier}
use ptf.Core.Json.{JsonValue, JsonFields, get_field}
use ptf.Registry.Workloads.{RuntimeRegistry}
use ptf.State.Db.{Db, UnitRow}
use ptf.State.Tx.{Tx, pure, lift, ◌>>=◌}
use ptf.State.Finite.Claim.{ClaimedUnit, claim_unit, claim_units}
use ptf.Finite.Context.{ExecutionContext}
use ptf.Worker.Execute.{FiniteWorker, execute_claimed}
use ptf.Worker.Settle.{HandledUnit, Attempted}

-- `envelope.payload or {}`
abbrev pub payload_or_empty : Option JsonFields → JsonFields
payload_or_empty none = JsonFields.end
payload_or_empty (some fields) = fields

-- `str(...)` of what `.get("unit_key", "")` returns
abbrev pub text_of : (JsonValue → String) → Option JsonValue → String
text_of show none = ""
text_of show (some (JsonValue.text t)) = t
text_of show (some v) = show v

-- `str(payload.get("unit_key", ""))`
unfoldable pub unit_key_of : (JsonValue → String) → VersionedEnvelope → String
unfolding get_field
unit_key_of show envelope = text_of show (get_field "unit_key" (payload_or_empty envelope.payload))

-- the times that one handling reads: of the claim, of the local clock, and of the record
pub record Times : Type 0 where
  pub claim : ℕ
  pub monotonic : ℕ
  pub settled : ℕ

module _ {P H W S : Type 0} (sha256 : String → String) (show_unexpected : String → String → String)
    (registry : RuntimeRegistry P H W S) (worker : FiniteWorker)
    (run_handler : H → ExecutionContext → JsonFields → Attempted) where
  -- `if claimed is None: return None`, and the execution
  unfoldable pub execute_if : Times → (Db → Db) → Option ClaimedUnit → Tx (Option HandledUnit)
  execute_if times meanwhile none = pure none
  execute_if times meanwhile (some c) = do
    handled ←
        execute_claimed sha256 show_unexpected registry worker run_handler times.monotonic
          times.settled meanwhile c
    pure (some handled)

  -- the claim of the unit that the envelope names, and its execution
  unfoldable pub claim_and_execute : Times → (Db → Db) → String → String → Tx (Option HandledUnit)
  unfolding execute_if
  claim_and_execute times meanwhile run key = do
    claimed ← claim_unit times.claim worker.instance_id run key worker.policy.claim_grace_seconds
    execute_if times meanwhile claimed

  -- `handle_envelope`
  unfoldable pub handle_envelope :
      (JsonValue → String) → Times → (Db → Db) → VersionedEnvelope → Tx (Option HandledUnit)
  unfolding claim_and_execute unit_key_of
  handle_envelope show times meanwhile envelope = do
    run ← lift (identifier IdentifierKind.run_id envelope.run_id)
    if unit_key_of show envelope == ""
        then pure none
        else claim_and_execute times meanwhile run (unit_key_of show envelope)

  -- the loop over the claimed units; each execution reads times of its own
  unfoldable pub execute_all :
      (ClaimedUnit → Times) → (ClaimedUnit → Db → Db) → List ClaimedUnit → Tx (List HandledUnit)
  execute_all times meanwhile [] = pure []
  execute_all times meanwhile (c ∷ cs) = do
    handled ←
        execute_claimed sha256 show_unexpected registry worker run_handler (times c).monotonic
          (times c).settled (meanwhile c) c
    rest ← execute_all times meanwhile cs
    pure (handled ∷ rest)

  -- `poll_once`, its batch claimed at `now`
  unfoldable pub poll_once :
      (String → String → Bool)
      → ℕ
      → ℕ
      → (UnitRow → Bool)
      → (ClaimedUnit → Times)
      → (ClaimedUnit → Db → Db)
      → Tx (List HandledUnit)
  unfolding execute_all
  poll_once collation now limit locked times meanwhile = do
    claimed ←
        claim_units collation now worker.instance_id limit worker.policy.claim_grace_seconds
          worker.pool_revision locked
    execute_all times meanwhile claimed
