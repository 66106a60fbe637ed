-- ===== src/Examples/Wired.antt =====
-- An artifact reference and two envelopes through their encoded forms.
use ptf.Prelude.{
  ℕ, ◌≡◌, ◌↔◌, refl, String, Bool, true, none, some, List, [], ◌∷◌, length, Option, ap, subst, ◌==◌,
  if◌then◌else◌,
}
use ptf.Prelude.Table.{exists_where}
use ptf.Core.Artifact.{
  is_stable_name, is_sha256, is_object_name, artifact_reference, to_payload, from_bytes,
  from_payload, verify,
}
use ptf.Core.Artifact.Trip.{IsArtifact, from_payload-to_payload, verify-from_bytes}
use ptf.Core.Envelope.{ArtifactReference, VersionedEnvelope}
use ptf.Core.Errors.{ok, err, value_error}
use ptf.Core.Json.{ℤ, JsonFields}
use ptf.Core.Text.{is_required}
use ptf.Core.Wire.{Arguments, is_kind, versioned_envelope}
use ptf.Core.Wire.Codec.{to_dict, from_dict}
use ptf.Core.Wire.Trip.{from_dict-to_dict}

abbrev plain : String → String
plain t = t

abbrev seven : ℕ → String
seven n = "7"

abbrev digest : List ℕ → String
digest [] = "e3b0c44298fc1c149afbf4c8996fb92427ae41e4649b934ca495991b7852b855"
digest (c ∷ cs) = "ca978112ca1bbdcafac231b39a23dc4da786eff8147c4e72b9807785afee48bb"

abbrev bytes : List ℕ
bytes = b'a' ∷ []

abbrev stored : ArtifactReference
stored = record {
  application = "app";
  bucket = "data";
  object_name = "runs/r1.json";
  generation = 7;
  uri = "gs://data/runs/r1.json?generation=7";
  sha256 = digest bytes;
  size_bytes = 1;
}

stored_checked :
    artifact_reference plain seven "app" "data" "runs/r1.json"
      (ℤ.pos 7)
      stored.uri
      stored.sha256
      (ℤ.pos 1)
    ≡ ok stored
unfolding artifact_reference is_stable_name is_object_name is_sha256
stored_checked = refl

stored_bytes : from_bytes plain seven digest "app" "data" "runs/r1.json" 7 bytes ≡ ok stored
unfolding from_bytes artifact_reference is_stable_name is_object_name is_sha256
stored_bytes = refl

-- a name that starts with `/` is refused
absolute_refused :
    from_bytes plain seven digest "app" "data" "/runs" 7 bytes
    ≡ err (value_error "artifact object_name must be a non-empty relative object name")
unfolding from_bytes artifact_reference is_stable_name is_object_name is_sha256
absolute_refused = refl

from_payload-to_payload_example : from_payload plain seven (to_payload stored) ≡ ok stored
from_payload-to_payload_example =
    from_payload-to_payload plain seven "app" "data" "runs/r1.json" (ℤ.pos 7) stored.uri
      stored.sha256 (ℤ.pos 1) stored stored_checked

verify-from_bytes_example :
    (verify digest stored [] ≡ ok tt) ↔ ((length {A = ℕ} [] ≡ 1) × (digest [] ≡ digest bytes))
verify-from_bytes_example =
    verify-from_bytes plain seven digest "app" "data" "runs/r1.json" 7 bytes [] stored stored_bytes

abbrev published : Arguments
published = record {
  schema_version = ℤ.pos 1;
  message_kind = "finite.unit_execute";
  run_id = "r1";
  execution_id = "e1";
  idempotency_key = "k1";
  application = "app";
  workload = "count";
  workload_version = "1.0.0";
  handler = "finite";
  attempt_generation = ℤ.pos 2;
  execution_class = "small";
  runtime_pool_revision = "rev1";
  published_at = "2024-01-01T00:00:00Z";
  payload = none;
  payload_ref = some stored;
  trace_context = ("traceparent", "00") ∷ [];
}

abbrev sent : VersionedEnvelope
sent = record {
  message_kind = "finite.unit_execute";
  run_id = "r1";
  execution_id = "e1";
  idempotency_key = "k1";
  application = "app";
  workload = "count";
  workload_version = "1.0.0";
  handler = "finite";
  attempt_generation = 2;
  execution_class = "small";
  runtime_pool_revision = "rev1";
  published_at = "2024-01-01T00:00:00Z";
  payload = none;
  payload_ref = some stored;
  trace_context = ("traceparent", "00") ∷ [];
}

-- the only timestamp that is read here
abbrev offset_of : String → Option Bool
offset_of t = if t == "2024-01-01T00:00:00+00:00" then some true else none

abbrev size : JsonFields → ℕ
size fields = 2

accepted : versioned_envelope offset_of size published ≡ ok sent
unfolding versioned_envelope is_kind is_required exists_where
accepted = refl

no_offset :
    versioned_envelope offset_of size (record published { published_at = "yesterday" })
    ≡ err (value_error "published_at must be an RFC 3339 timestamp")
unfolding versioned_envelope is_kind is_required exists_where
no_offset = refl

reference_checked :
    (r : ArtifactReference) → published.payload_ref ≡ some r → IsArtifact plain seven r
reference_checked r e =
    subst (IsArtifact plain seven) (ap (λ o. elim o [ none ↦ stored | some a ↦ a ]) e)
      stored_checked

from_dict-to_dict_example :
    (d : JsonFields) × (to_dict sent ≡ ok d)
    × (from_dict plain seven offset_of size (1 ∷ []) d ≡ ok sent)
from_dict-to_dict_example =
    from_dict-to_dict plain seven offset_of size published sent accepted reference_checked
