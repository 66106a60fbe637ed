-- ===== src/Core/Wire/Trip.antt =====
-- Envelopes through their wire form.
use ptf.Prelude.{
  ℕ, ◌≡◌, refl, ap, ◌∙◌, subst, String, Bool, true, Option, none, some, List, [], ◌∷◌, arith,
}
use ptf.Core.Artifact.Trip.{IsArtifact, payload-IsArtifact}
use ptf.Core.Envelope.{ArtifactReference, VersionedEnvelope}
use ptf.Core.Errors.{Result, ok, ◌>>=◌}
use ptf.Core.Json.{ℤ, JsonFields, get_field}
use ptf.Core.Wire.{Arguments, versioned_envelope, exactly_one}
use ptf.Core.Wire.Codec.{
  text_fields, text_pairs, object_or_none, content_field, dict_of, to_dict, decode_ref, from_dict,
}

-- the arguments that give an envelope
abbrev arguments_of : VersionedEnvelope → Arguments
arguments_of e = record {
  schema_version = ℤ.pos 1;
  message_kind = e.message_kind;
  run_id = e.run_id;
  execution_id = e.execution_id;
  idempotency_key = e.idempotency_key;
  application = e.application;
  workload = e.workload;
  workload_version = e.workload_version;
  handler = e.handler;
  attempt_generation = ℤ.pos e.attempt_generation;
  execution_class = e.execution_class;
  runtime_pool_revision = e.runtime_pool_revision;
  published_at = e.published_at;
  payload = e.payload;
  payload_ref = e.payload_ref;
  trace_context = e.trace_context;
}

text_pairs-text_fields :
    (pairs : List (String × String)) → text_pairs (text_fields pairs) ≡ ok pairs
unfolding text_pairs text_fields
text_pairs-text_fields [] = refl
text_pairs-text_fields ((key, value) ∷ pairs) = rw (text_pairs-text_fields pairs)

module _ (quote : String → String) (show : ℕ → String) (offset_of : String → Option Bool)
    (encoded_size : JsonFields → ℕ) where
  versioned_envelope-arguments :
      (a : Arguments) (e : VersionedEnvelope)
      → versioned_envelope offset_of encoded_size a ≡ ok e
      → (a ≡ arguments_of e) × (exactly_one e.payload e.payload_ref ≡ true)
  unfolding versioned_envelope
  versioned_envelope-arguments a e made = (ground (arith, made), ground (arith, made))

  -- what `from_dict` makes of the last field
  decode_content : JsonFields → Result (Option JsonFields × Option ArtifactReference)
  decode_content content =
      object_or_none "payload must be an object" (get_field "payload" content) >>= λ p.
      object_or_none "payload_ref must be an object" (get_field "payload_ref" content) >>= λ d.
      decode_ref quote show offset_of encoded_size d >>= λ r. ok (p, r)

  from_dict-dict_of :
      (e : VersionedEnvelope) (content : JsonFields)
      → from_dict quote show offset_of encoded_size (1 ∷ []) (dict_of e content) ≡ (
          decode_content content >>= λ c.
          versioned_envelope offset_of encoded_size
            (record (arguments_of e) { payload = c.0; payload_ref = c.1 }))
  unfolding from_dict dict_of decode_content get_field
  from_dict-dict_of e content = rw (text_pairs-text_fields e.trace_context) (ground arith)

  content-trip :
      (payload : Option JsonFields) (ref : Option ArtifactReference)
      → exactly_one payload ref ≡ true
      → ((r : ArtifactReference) → ref ≡ some r → IsArtifact quote show r)
      → (content : JsonFields) × (content_field payload ref ≡ ok content)
        × (decode_content content ≡ ok (payload, ref))
  unfolding content_field decode_content decode_ref object_or_none get_field
  content-trip (some fields) (some r) one checked = absurd (cc)
  content-trip (some fields) none one checked = (_, refl, refl)
  content-trip none (some r) one checked =
      (_, refl, rw (payload-IsArtifact quote show r (checked r refl)) refl)
  content-trip none none one checked = absurd (cc)

  -- An envelope that the checks let through, with an artifact reference that its own checks let
  -- through if it has one, survives its wire form: it encodes to a dictionary, and decoding that
  -- dictionary under version 1 gives the envelope back.
  pub from_dict-to_dict :
      (a : Arguments) (e : VersionedEnvelope)
      → versioned_envelope offset_of encoded_size a ≡ ok e
      → ((r : ArtifactReference) → a.payload_ref ≡ some r → IsArtifact quote show r)
      → (d : JsonFields) × (to_dict e ≡ ok d)
        × (from_dict quote show offset_of encoded_size (1 ∷ []) d ≡ ok e)
  unfolding to_dict
  from_dict-to_dict a e made checked =
      let (same, one) = versioned_envelope-arguments a e made in
      let (content, encodes, decodes) =
        content-trip e.payload e.payload_ref one
          (λ r found. checked r (ap (λ x. x.payload_ref) same ∙ found)) in
      (
        dict_of e content,
        rw encodes refl,
        from_dict-dict_of e content
            ∙ (rw decodes refl
                ∙ subst (λ x. versioned_envelope offset_of encoded_size x ≡ ok e) same made),
      )
