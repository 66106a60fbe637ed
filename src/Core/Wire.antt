-- ===== src/Core/Wire.antt =====
-- The checks and the wire form of `VersionedEnvelope`, src/distributed_runtime/core/envelope.py.
-- Parameters: `offset_of` is `datetime.fromisoformat`, which fails or tells whether there is an offset;
-- `encoded_size` is the number of bytes of the canonical JSON text of a payload; `quote` and `show` are
-- those of the artifacts. Freezing and thawing a payload changes nothing of it as data.
pub mod Codec
pub mod Trip
use Prim.Native.Char.{code}
use Prim.Native.String.{◌++◌}
use ptf.Prelude.{
  ℕ, ◌*◌, String, Bool, true, false, ◌==◌, ◌&&◌, ◌||◌, Option, none, some, List, [], ◌∷◌, leb,
  nat_eq, not, is_some, is_none, if◌then◌else◌,
}
use ptf.Prelude.Table.{exists_where}
use ptf.Core.Artifact.{positive, to_payload, from_payload}
use ptf.Core.Envelope.{ArtifactReference, VersionedEnvelope}
use ptf.Core.Errors.{Result, ok, err, require, value_error, unsupported_version, ◌>>=◌, ◌>>◌}
use ptf.Core.Json.{ℤ, JsonValue, JsonItems, JsonFields, get_field, is_finite, finite_fields}
use ptf.Core.Name.{codes}
use ptf.Core.Text.{is_required}

-- `_KIND`: words of `[a-z0-9]` with one of `._-` between them, the first of which starts with a letter
abbrev is_lower : ℕ → Bool
is_lower c = leb b'a' c && leb c b'z'

abbrev is_mark : ℕ → Bool
is_mark c = nat_eq c b'.' || (nat_eq c b'_' || nat_eq c b'-')

-- the rest of the text, `open` telling that the last character was a mark
unfoldable pub kind_rest : Bool → List ℕ → Bool
kind_rest opened [] = not opened
kind_rest opened (c ∷ cs) =
    (if is_mark c then not opened else is_lower c || (leb b'0' c && leb c b'9'))
    && kind_rest (is_mark c) cs

unfoldable pub is_kind : List ℕ → Bool
unfolding kind_rest
is_kind [] = false
is_kind (c ∷ cs) = is_lower c && kind_rest false cs

-- `.replace("Z", "+00:00")`
unfoldable pub with_offset : String → String
with_offset String.[] = ""
with_offset (String.◌∷◌ c s) =
    let rest = with_offset s in if nat_eq (code c) b'Z' then "+00:00" ++ rest else String.◌∷◌ c rest

-- what `VersionedEnvelope(...)` is called with
pub record Arguments : Type 0 where
  pub schema_version : ℤ
  pub message_kind : String
  pub run_id : String
  pub execution_id : String
  pub idempotency_key : String
  pub application : String
  pub workload : String
  pub workload_version : String
  pub handler : String
  pub attempt_generation : ℤ
  pub execution_class : String
  pub runtime_pool_revision : String
  pub published_at : String
  pub payload : Option JsonFields
  pub payload_ref : Option ArtifactReference
  pub trace_context : List (String × String)

-- what the building of an envelope takes from outside: `datetime.fromisoformat`, the size of the encoded
-- payload, and the text of the current time
pub record Stamp : Type 0 where
  pub offset_of : String → Option Bool
  pub encoded_size : JsonFields → ℕ
  pub text : String

-- `self.schema_version != 1`
abbrev pub is_one : ℤ → Bool
is_one (ℤ.pos n) = nat_eq n 1
is_one (ℤ.negsuc n) = false

unfoldable pub required_string : String → String → Result (Unit {0})
required_string name value = require (is_required value) (value_error name)

-- the fields that must be non-empty trimmed texts
unfoldable pub required_strings : Arguments → Result (Unit {0})
unfolding required_string
required_strings a = do
  required_string "run_id" a.run_id
  required_string "execution_id" a.execution_id
  required_string "idempotency_key" a.idempotency_key
  required_string "application" a.application
  required_string "workload" a.workload
  required_string "workload_version" a.workload_version
  required_string "handler" a.handler
  required_string "execution_class" a.execution_class
  required_string "runtime_pool_revision" a.runtime_pool_revision

-- `payload_ref.application` is that of the envelope, if there is a reference
abbrev same_application : Option ArtifactReference → String → Bool
same_application none application = true
same_application (some r) application = r.application == application

-- `(payload is None) != (payload_ref is None)`
abbrev pub exactly_one : Option JsonFields → Option ArtifactReference → Bool
exactly_one none r = is_some r
exactly_one (some p) r = is_none r

abbrev pub limit_bytes : ℕ
limit_bytes = 256 * 1024

module _ (offset_of : String → Option Bool) (encoded_size : JsonFields → ℕ) where
  -- `datetime.fromisoformat(...)`, and the test of its offset
  unfoldable pub check_published : String → Result (Unit {0})
  unfolding with_offset
  check_published t = elim (offset_of (with_offset t)) [
    | none ↦ err (value_error "published_at must be an RFC 3339 timestamp")
    | some offset ↦ require offset (value_error "published_at must include an offset")
  ]

  -- `freeze_json_mapping`, and the limit on the encoded payload
  unfoldable pub check_payload : Option JsonFields → Result (Unit {0})
  unfolding is_finite
  check_payload none = ok tt
  check_payload (some fields) = do
    require (finite_fields fields) (value_error "payload does not support non-finite numbers")
    require (leb (encoded_size fields) limit_bytes)
        (value_error "inline payload exceeds 256 KiB; use payload_ref")

  -- `__post_init__`
  unfoldable pub versioned_envelope : Arguments → Result VersionedEnvelope
  unfolding is_kind required_strings positive check_published check_payload
  versioned_envelope a = do
    require (is_one a.schema_version) (value_error "schema_version must equal 1")
    require (is_kind (codes a.message_kind))
        (value_error "message_kind must be a lowercase dotted identifier")
    required_strings a
    attempt ← positive a.attempt_generation "attempt_generation must be a positive integer"
    check_published a.published_at
    require (exactly_one a.payload a.payload_ref)
        (value_error "exactly one of payload or payload_ref is required")
    require (same_application a.payload_ref a.application)
        (value_error "payload_ref application must match envelope application")
    require (not (exists_where (λ entry. entry.0 == "") a.trace_context))
        (value_error "trace_context must be a string mapping")
    check_payload a.payload
    ok (record {
      message_kind = a.message_kind;
      run_id = a.run_id;
      execution_id = a.execution_id;
      idempotency_key = a.idempotency_key;
      application = a.application;
      workload = a.workload;
      workload_version = a.workload_version;
      handler = a.handler;
      attempt_generation = attempt;
      execution_class = a.execution_class;
      runtime_pool_revision = a.runtime_pool_revision;
      published_at = a.published_at;
      payload = a.payload;
      payload_ref = a.payload_ref;
      trace_context = a.trace_context;
    })
