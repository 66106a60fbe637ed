-- ===== src/Core/Artifact.antt =====
-- The checks and the payload form of `ArtifactReference`, src/distributed_runtime/core/artifacts.py.
-- `quote` is `urllib.parse.quote(..., safe='/')`, `show` prints an integer, `sha256` is the digest of
-- bytes.
pub mod Trip
use Prim.Native.String.{◌++◌}
use ptf.Prelude.{
  ℕ, ◌≡◌, refl, String, Bool, true, false, ◌==◌, ◌&&◌, ◌||◌, Option, none, some, List, [], ◌∷◌, leb,
  nat_eq, not, length, arith, eq_iff, eq_refl,
}
use ptf.Core.Envelope.{ArtifactReference}
use ptf.Core.Errors.{Result, ok, err, require, value_error, invariant_violation, ◌>>=◌, ◌>>◌}
use ptf.Core.Json.{ℤ, JsonValue, JsonFields, get_field}
use ptf.Core.Name.{codes, is_alphanumeric}
use ptf.Core.Text.{all_codes}

-- `[A-Za-z0-9._-]`
abbrev is_stable_char : ℕ → Bool
is_stable_char c = is_alphanumeric c || (nat_eq c b'.' || nat_eq c b'_' || nat_eq c b'-')

-- `_NAME.fullmatch`
unfoldable pub is_stable_name : List ℕ → Bool
unfolding all_codes
is_stable_name [] = false
is_stable_name (c ∷ cs) = is_alphanumeric c && all_codes is_stable_char cs

-- `[0-9a-f]`
abbrev is_hex : ℕ → Bool
is_hex c = (leb b'0' c && leb c b'9') || (leb b'a' c && leb c b'f')

-- `_SHA256.fullmatch`
unfoldable pub is_sha256 : List ℕ → Bool
unfolding all_codes
is_sha256 cs = nat_eq (length cs) 64 && all_codes is_hex cs

unfoldable pub last_is : ℕ → ℕ → List ℕ → Bool
last_is mark c [] = nat_eq c mark
last_is mark c (d ∷ ds) = last_is mark d ds

-- `object_name` is given, and neither starts nor ends with `/`
unfoldable pub is_object_name : List ℕ → Bool
unfolding last_is
is_object_name [] = false
is_object_name (c ∷ cs) = not (nat_eq c b'/') && not (last_is b'/' c cs)

-- an integer that is at least 1, or at least 0
unfoldable pub positive : ℤ → String → Result ℕ
positive (ℤ.pos n) reason = require (leb 1 n) (value_error reason) >> ok n
positive (ℤ.negsuc n) reason = err (value_error reason)

unfoldable pub natural : ℤ → String → Result ℕ
natural (ℤ.pos n) reason = ok n
natural (ℤ.negsuc n) reason = err (value_error reason)

-- `_string_field` and `_integer_field`, of a field that is there
unfoldable pub string_field : String → JsonFields → Result String
string_field name payload = elim (get_field name payload) [
  | some (JsonValue.text t) ↦ ok t
  | _ ↦ err (value_error "artifact field must be a string")
]

unfoldable pub integer_field : String → JsonFields → Result ℤ
integer_field name payload = elim (get_field name payload) [
  | some (JsonValue.integer n) ↦ ok n
  | _ ↦ err (value_error "artifact field must be an integer")
]

abbrev has_field : JsonFields → String → Bool
has_field payload name = elim (get_field name payload) [ none ↦ false | some v ↦ true ]

unfoldable pub has_all : JsonFields → List String → Bool
has_all payload [] = true
has_all payload (name ∷ names) = has_field payload name && has_all payload names

abbrev required_fields : List String
required_fields =
    "application" ∷ "bucket" ∷ "object_name" ∷ "generation" ∷ "uri" ∷ "sha256" ∷ "size_bytes" ∷ []

-- `to_payload`
unfoldable pub to_payload : ArtifactReference → JsonFields
to_payload a = JsonFields.field "application" (JsonValue.text a.application) (
    JsonFields.field "bucket" (JsonValue.text a.bucket) (
      JsonFields.field "object_name" (JsonValue.text a.object_name) (
        JsonFields.field "generation" (JsonValue.integer (ℤ.pos a.generation)) (
          JsonFields.field "uri" (JsonValue.text a.uri) (
            JsonFields.field "sha256" (JsonValue.text a.sha256) (
              JsonFields.field "size_bytes" (JsonValue.integer (ℤ.pos a.size_bytes))
                JsonFields.end))))))

module _ (quote : String → String) (show : ℕ → String) where
  -- `build_uri`
  unfoldable pub build_uri : String → String → ℕ → String
  build_uri bucket object_name generation =
      "gs://" ++ (bucket ++ ("/" ++ (quote object_name ++ ("?generation=" ++ show generation))))

  -- `ArtifactReference(...)`: the tests of `__post_init__`
  unfoldable pub artifact_reference :
      String → String → String → ℤ → String → String → ℤ → Result ArtifactReference
  unfolding is_stable_name is_object_name is_sha256 build_uri positive natural
  artifact_reference application bucket object_name generation uri sha256 size_bytes = do
    require (is_stable_name (codes application))
        (value_error "artifact application must be a stable name")
    require (is_stable_name (codes bucket)) (value_error "artifact bucket must be a stable name")
    require (is_object_name (codes object_name))
        (value_error "artifact object_name must be a non-empty relative object name")
    g ← positive generation "artifact generation must be positive"
    require (uri == build_uri bucket object_name g)
        (value_error "artifact uri must equal its parts")
    require (is_sha256 (codes sha256))
        (value_error "artifact sha256 must be 64 lowercase hexadecimal characters")
    size ← natural size_bytes "artifact size_bytes must be a non-negative integer"
    ok (record {
      application = application;
      bucket = bucket;
      object_name = object_name;
      generation = g;
      uri = uri;
      sha256 = sha256;
      size_bytes = size;
    })

  -- `from_bytes`
  unfoldable pub from_bytes :
      (List ℕ → String) → String → String → String → ℕ → List ℕ → Result ArtifactReference
  unfolding artifact_reference
  from_bytes digest application bucket object_name generation content =
      artifact_reference application bucket object_name (ℤ.pos generation)
        (build_uri bucket object_name generation) (digest content) (ℤ.pos (length content))

  -- `from_payload`; the keys of a JSON object are texts
  unfoldable pub from_payload : JsonFields → Result ArtifactReference
  unfolding artifact_reference string_field integer_field has_all
  from_payload payload = do
    require (has_all payload required_fields) (value_error "artifact fields missing")
    application ← string_field "application" payload
    bucket ← string_field "bucket" payload
    object_name ← string_field "object_name" payload
    generation ← integer_field "generation" payload
    uri ← string_field "uri" payload
    sha256 ← string_field "sha256" payload
    size_bytes ← integer_field "size_bytes" payload
    artifact_reference application bucket object_name generation uri sha256 size_bytes

-- `verify`
unfoldable pub verify : (List ℕ → String) → ArtifactReference → List ℕ → Result (Unit {0})
verify digest a content =
    require (nat_eq (length content) a.size_bytes && digest content == a.sha256)
      (invariant_violation "artifact content does not match its immutable reference")
