-- ===== src/Core/Artifact/Trip.antt =====
-- Artifact references through their payload form, and against their content.
use ptf.Prelude.{ℕ, ◌≡◌, ◌↔◌, String, List, arith, length, eq_iff, nat_eq_iff, sym, ap, ◌∙◌, subst}
use ptf.Core.Artifact.{artifact_reference, to_payload, from_payload, from_bytes, verify}
use ptf.Core.Envelope.{ArtifactReference}
use ptf.Core.Errors.{ok}
use ptf.Core.Json.{ℤ, get_field}

module _ (quote : String → String) (show : ℕ → String) where
  -- the reference passes the tests of its own fields
  abbrev pub IsArtifact : ArtifactReference → Type 0
  IsArtifact a =
      artifact_reference quote show a.application a.bucket a.object_name (ℤ.pos a.generation) a.uri
        a.sha256 (ℤ.pos a.size_bytes)
      ≡ ok a

  pub artifact_reference-IsArtifact :
      (application bucket object_name : String) (generation : ℤ) (uri sha256 : String)
      (size_bytes : ℤ) (a : ArtifactReference)
      → artifact_reference quote show application bucket object_name generation uri sha256
          size_bytes
        ≡ ok a
      → IsArtifact a
  unfolding artifact_reference
  artifact_reference-IsArtifact application bucket object_name (ℤ.pos g) uri sha256 (ℤ.pos n) a e =
      let made : ArtifactReference = record {
        application = application;
        bucket = bucket;
        object_name = object_name;
        generation = g;
        uri = uri;
        sha256 = sha256;
        size_bytes = n;
      } in
      let same : a ≡ made = ground (arith, e) in subst IsArtifact (sym same) (e ∙ ap ok same)
  artifact_reference-IsArtifact application bucket object_name (ℤ.negsuc g) uri sha256 n a e =
      absurd (ground (arith, e))
  artifact_reference-IsArtifact application bucket object_name (ℤ.pos g) uri sha256 (ℤ.negsuc n) a
        e =
      absurd (ground (arith, e))

  pub payload-IsArtifact :
      (a : ArtifactReference) → IsArtifact a → from_payload quote show (to_payload a) ≡ ok a
  unfolding from_payload to_payload get_field
  payload-IsArtifact a h = h

  -- A reference that the checks let through survives its payload form: decoding what it encodes to
  -- gives the reference back.
  pub from_payload-to_payload :
      (application bucket object_name : String) (generation : ℤ) (uri sha256 : String)
      (size_bytes : ℤ) (a : ArtifactReference)
      → artifact_reference quote show application bucket object_name generation uri sha256
          size_bytes
        ≡ ok a
      → from_payload quote show (to_payload a) ≡ ok a
  from_payload-to_payload application bucket object_name generation uri sha256 size_bytes a e =
      payload-IsArtifact a (
        artifact_reference-IsArtifact application bucket object_name generation uri sha256
          size_bytes a e)

  -- A reference made from bytes accepts exactly the contents of their length and their digest.
  pub verify-from_bytes :
      (digest : List ℕ → String) (application bucket object_name : String) (generation : ℕ)
      (content other : List ℕ) (a : ArtifactReference)
      → from_bytes quote show digest application bucket object_name generation content ≡ ok a
      → (verify digest a other ≡ ok tt)
        ↔ ((length other ≡ length content) × (digest other ≡ digest content))
  unfolding from_bytes verify
  verify-from_bytes digest application bucket object_name generation content other a e =
      let sized : a.size_bytes ≡ length content = ground (arith, e) in
      let hashed : a.sha256 ≡ digest content = ground (arith, e) in
      (
        (λ h. ground (
          arith,
          h,
          sized,
          hashed,
          eq_iff (digest other) a.sha256,
          nat_eq_iff (length other) a.size_bytes,
        )),
        (λ h. ground (
          arith,
          h.0,
          h.1,
          sized,
          hashed,
          eq_iff (digest other) a.sha256,
          nat_eq_iff (length other) a.size_bytes,
        )),
      )
