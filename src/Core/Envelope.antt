-- ===== src/Core/Envelope.antt =====
-- src/distributed_runtime/core/envelope.py `VersionedEnvelope` and core/artifacts.py
-- `ArtifactReference`, as data. The modelled callers build envelopes from validated identifiers, so
-- they make these records directly; the checks of `__post_init__` are in Core/Artifact and Core/Wire.
use ptf.Prelude.{ℕ, String, Option, List}
use ptf.Core.Json.{JsonFields}

-- `class ArtifactReference`
pub record ArtifactReference : Type 0 where
  pub application : String
  pub bucket : String
  pub object_name : String
  pub generation : ℕ
  pub uri : String
  pub sha256 : String
  pub size_bytes : ℕ

-- `class VersionedEnvelope`; `schema_version` is 1 in every one.
pub record VersionedEnvelope : Type 0 where
  pub message_kind : String
  pub run_id : String
  pub execution_id : String
  pub idempotency_key : String
  pub application : String
  pub workload : String
  pub workload_version : String
  pub handler : String
  pub attempt_generation : ℕ
  pub execution_class : String
  pub runtime_pool_revision : String
  pub published_at : String
  pub payload : Option JsonFields
  pub payload_ref : Option ArtifactReference
  pub trace_context : List (String × String)
