-- ===== src/Core/Wire/Codec.antt =====
-- `to_dict` and `from_dict` of `VersionedEnvelope`. A JSON object is the list of its fields, each
-- with a key of its own.
use ptf.Prelude.{ℕ, String, Bool, false, ◌||◌, Option, none, some, List, [], ◌∷◌, nat_eq}
use ptf.Core.Artifact.{to_payload, from_payload}
use ptf.Core.Envelope.{ArtifactReference, VersionedEnvelope}
use ptf.Core.Errors.{
  Result, ok, err, require, value_error, unsupported_version, runtime_error, ◌>>=◌, ◌>>◌,
}
use ptf.Core.Json.{ℤ, JsonValue, JsonFields, get_field}
use ptf.Core.Wire.{versioned_envelope}

-- `dict(self.trace_context)`, and back
unfoldable pub text_fields : List (String × String) → JsonFields
text_fields [] = JsonFields.end
text_fields ((key, value) ∷ rest) = JsonFields.field key (JsonValue.text value) (text_fields rest)

unfoldable pub text_pairs : JsonFields → Result (List (String × String))
text_pairs JsonFields.end = ok []
text_pairs (JsonFields.field key (JsonValue.text value) rest) =
    text_pairs rest >>= λ pairs. ok ((key, value) ∷ pairs)
text_pairs (JsonFields.field key v rest) =
    err (value_error "trace_context must be a string mapping")

-- `_string_mapping(value.get("trace_context", {}), ...)`
unfoldable pub string_mapping : Option JsonValue → Result (List (String × String))
unfolding text_pairs
string_mapping none = ok []
string_mapping (some (JsonValue.object fields)) = text_pairs fields
string_mapping (some v) = err (value_error "trace_context must be a string mapping")

-- `_mapping_string` and `_mapping_integer`
unfoldable pub mapping_string : JsonFields → String → Result String
mapping_string value name = elim (get_field name value) [
  | some (JsonValue.text t) ↦ ok t
  | _ ↦ err (value_error name)
]

unfoldable pub mapping_integer : JsonFields → String → Result ℤ
mapping_integer value name = elim (get_field name value) [
  | some (JsonValue.integer n) ↦ ok n
  | _ ↦ err (value_error name)
]

-- a value that is None or an object
unfoldable pub object_or_none : String → Option JsonValue → Result (Option JsonFields)
object_or_none name none = ok none
object_or_none name (some JsonValue.null) = ok none
object_or_none name (some (JsonValue.object fields)) = ok (some fields)
object_or_none name (some v) = err (value_error name)

-- the last field of `to_dict`
unfoldable pub content_field : Option JsonFields → Option ArtifactReference → Result JsonFields
content_field (some fields) ref =
    ok (JsonFields.field "payload" (JsonValue.object fields) JsonFields.end)
content_field none (some r) =
    ok (JsonFields.field "payload_ref" (JsonValue.object (to_payload r)) JsonFields.end)
content_field none none = err (runtime_error "validated envelope is missing payload data")

abbrev text_field : String → String → JsonFields → JsonFields
text_field key value rest = JsonFields.field key (JsonValue.text value) rest

-- the fields before the last one
unfoldable pub dict_of : VersionedEnvelope → JsonFields → JsonFields
unfolding text_fields
dict_of e content = JsonFields.field "schema_version" (JsonValue.integer (ℤ.pos 1)) (
    text_field "message_kind" e.message_kind (
      text_field "run_id" e.run_id (
        text_field "execution_id" e.execution_id (
          text_field "idempotency_key" e.idempotency_key (
            text_field "application" e.application (
              text_field "workload" e.workload (
                text_field "workload_version" e.workload_version (
                  text_field "handler" e.handler (
                    JsonFields.field "attempt_generation"
                      (JsonValue.integer (ℤ.pos e.attempt_generation))
                      (text_field "execution_class" e.execution_class (
                        text_field "runtime_pool_revision" e.runtime_pool_revision (
                          JsonFields.field "trace_context"
                            (JsonValue.object (text_fields e.trace_context))
                            (text_field "published_at" e.published_at content)))))))))))))

-- `to_dict`
unfoldable pub to_dict : VersionedEnvelope → Result JsonFields
unfolding content_field dict_of
to_dict e = content_field e.payload e.payload_ref >>= λ content. ok (dict_of e content)

-- `version in supported`
unfoldable pub is_supported : ℤ → List ℕ → Bool
is_supported n [] = false
is_supported (ℤ.pos n) (v ∷ vs) = nat_eq v n || is_supported (ℤ.pos n) vs
is_supported (ℤ.negsuc n) (v ∷ vs) = is_supported (ℤ.negsuc n) vs

module _ (quote : String → String) (show : ℕ → String) (offset_of : String → Option Bool)
    (encoded_size : JsonFields → ℕ) where
  -- `ArtifactReference.from_payload(payload_ref_data) if ... else None`
  unfoldable pub decode_ref : Option JsonFields → Result (Option ArtifactReference)
  decode_ref none = ok none
  decode_ref (some fields) = from_payload quote show fields >>= λ r. ok (some r)

  -- `from_dict`
  unfoldable pub from_dict : List ℕ → JsonFields → Result VersionedEnvelope
  unfolding mapping_string mapping_integer string_mapping object_or_none is_supported decode_ref
  from_dict supported value = do
    version ← mapping_integer value "schema_version"
    require (is_supported version supported) unsupported_version
    payload ← object_or_none "payload must be an object" (get_field "payload" value)
    ref_data ← object_or_none "payload_ref must be an object" (get_field "payload_ref" value)
    payload_ref ← decode_ref ref_data
    trace_context ← string_mapping (get_field "trace_context" value)
    message_kind ← mapping_string value "message_kind"
    run_id ← mapping_string value "run_id"
    execution_id ← mapping_string value "execution_id"
    idempotency_key ← mapping_string value "idempotency_key"
    application ← mapping_string value "application"
    workload ← mapping_string value "workload"
    workload_version ← mapping_string value "workload_version"
    handler ← mapping_string value "handler"
    attempt_generation ← mapping_integer value "attempt_generation"
    execution_class ← mapping_string value "execution_class"
    runtime_pool_revision ← mapping_string value "runtime_pool_revision"
    published_at ← mapping_string value "published_at"
    versioned_envelope offset_of encoded_size (record {
      schema_version = version;
      message_kind = message_kind;
      run_id = run_id;
      execution_id = execution_id;
      idempotency_key = idempotency_key;
      application = application;
      workload = workload;
      workload_version = workload_version;
      handler = handler;
      attempt_generation = attempt_generation;
      execution_class = execution_class;
      runtime_pool_revision = runtime_pool_revision;
      published_at = published_at;
      payload = payload;
      payload_ref = payload_ref;
      trace_context = trace_context;
    })
