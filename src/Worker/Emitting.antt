-- ===== src/Worker/Emitting.antt =====
-- What a task of a partition emits: `PartitionContext.emit` of continuous/contracts.py, through
-- `_StoreSinks` and `_StoreSink` of src/distributed_runtime/worker/continuous.py.
use ptf.Prelude.{ℕ, String}
use ptf.Core.Envelope.{VersionedEnvelope}
use ptf.Continuous.Contracts.{LeaseHandle}
use ptf.Continuous.Discovery.{PartitionContext, require_stable_name}
use ptf.Registry.Sinks.{sink}
use ptf.Registry.Workloads.{RuntimeRegistry}
use ptf.State.Tx.{Tx, pure, lift, ◌>>=◌, ◌>>◌}
use ptf.State.Continuous.Emit.{emit}

-- `_StoreSink.emit`, of a sink of this name
unfoldable pub store_sink_emit :
    String → ℕ → VersionedEnvelope → String → LeaseHandle → Tx (Unit {0})
unfolding emit
store_sink_emit name now event stable_id lease = do _ ← emit now lease name stable_id event; pure tt

module _ {P H W S : Type 0} (registry : RuntimeRegistry P H W S) where
  -- `_StoreSinks.get`: the name must be that of a registered sink
  unfoldable pub store_sinks_get :
      String → Tx (ℕ → VersionedEnvelope → String → LeaseHandle → Tx (Unit {0}))
  unfolding sink store_sink_emit
  store_sinks_get name = do _ ← lift (sink name registry); pure (store_sink_emit name)

  -- `PartitionContext.emit`
  unfoldable pub context_emit :
      ℕ → PartitionContext → String → VersionedEnvelope → String → Tx (Unit {0})
  unfolding require_stable_name store_sinks_get
  context_emit now context sink_name event stable_id = do
    lift (require_stable_name sink_name)
    lift (require_stable_name stable_id)
    found ← store_sinks_get sink_name
    found now event stable_id context.lease
