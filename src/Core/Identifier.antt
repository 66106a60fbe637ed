-- ===== src/Core/Identifier.antt =====
-- src/distributed_runtime/core/identifiers.py. An identifier is the text that it holds.
use Prim.Native.String.{◌++◌}
use ptf.Prelude.{
  ℕ, ◌≤◌, ◌≡◌, ◌↔◌, refl, String, Bool, true, false, ◌==◌, ◌&&◌, List, [], ◌∷◌, leb, not, length,
  arith, eq_iff, subst, inl, inr, Bool-cases,
}
use ptf.Core.Errors.{Result, ok, Error, invalid_identifier, require, ◌>>◌}
use ptf.Core.Name.{codes, is_alphanumeric, is_name_char, all_name_chars, matches_name}
use ptf.Core.Text.{is_space, ends_trimmed, is_trimmed}

-- the subclasses of `Identifier`, and itself
pub data IdentifierKind : Type 0 where
  any_kind workload_id revision_id run_id execution_id : IdentifierKind
  deployment_id partition_id runtime_instance_id artifact_id : IdentifierKind

-- the class variable `kind`
unfoldable pub kind_name : IdentifierKind → String
kind_name IdentifierKind.any_kind = "identifier"
kind_name IdentifierKind.workload_id = "workload_id"
kind_name IdentifierKind.revision_id = "revision_id"
kind_name IdentifierKind.run_id = "run_id"
kind_name IdentifierKind.execution_id = "execution_id"
kind_name IdentifierKind.deployment_id = "deployment_id"
kind_name IdentifierKind.partition_id = "partition_id"
kind_name IdentifierKind.runtime_instance_id = "runtime_instance_id"
kind_name IdentifierKind.artifact_id = "artifact_id"

-- the class variable `max_length`
abbrev pub max_length : ℕ
max_length = 255

-- `_raise_invalid`
abbrev pub invalid : IdentifierKind → String → Error
invalid kind reason = invalid_identifier ("invalid " ++ (kind_name kind ++ (": " ++ reason)))

-- `Identifier(value)` and `parse`: the tests of `__post_init__`
unfoldable pub identifier : IdentifierKind → String → Result String
identifier kind value = do
  require (not (value == "")) (invalid kind "must not be empty")
  require (is_trimmed (codes value))
      (invalid kind "must not contain leading or trailing whitespace")
  require (leb (length (codes value)) max_length) (invalid kind "must be at most 255 characters")
  require (matches_name (codes value)) (invalid kind "contains unsupported characters")
  ok value

and_parts : {a b : Bool} → (a && b) ≡ true → (a ≡ true) × (b ≡ true)
and_parts {a} {b} h = ground (arith, h)

name_char-ne-space : (c : ℕ) → is_name_char c ≡ true → is_space c ≡ false
name_char-ne-space c h = ground arith

alphanumeric-ne-space : (c : ℕ) → is_alphanumeric c ≡ true → is_space c ≡ false
alphanumeric-ne-space c h = ground arith

ends_trimmed_of_name :
    (c : ℕ) (cs : List ℕ) → is_space c ≡ false → all_name_chars cs ≡ true → ends_trimmed c cs ≡ true
unfolding ends_trimmed all_name_chars
ends_trimmed_of_name c [] h k = rw h
ends_trimmed_of_name c (d ∷ ds) h k =
    let (now, later) = and_parts k in ends_trimmed_of_name d ds (name_char-ne-space d now) later

is_trimmed_of_name : (cs : List ℕ) → matches_name cs ≡ true → is_trimmed cs ≡ true
unfolding matches_name is_trimmed
is_trimmed_of_name [] h = refl
is_trimmed_of_name (c ∷ cs) h =
    let (first, others) = and_parts h in
    let start = alphanumeric-ne-space c first in rw (start, ends_trimmed_of_name c cs start others)

pub not_empty : (value : String) → matches_name (codes value) ≡ true → (value == "") ≡ false
unfolding matches_name
not_empty value h = elim (Bool-cases (value == "")) [
  | inl empty ↦
      absurd (cc (subst (λ t. matches_name (codes t) ≡ true) ((eq_iff value "").0 empty) h))
  | inr filled ↦ filled
]

-- An identifier of any kind is accepted exactly if it matches the pattern and has at most 255
-- characters: the tests for an empty text and for white space refuse nothing else.
pub identifier_iff :
    (kind : IdentifierKind) (value : String)
    → (identifier kind value ≡ ok value)
      ↔ ((matches_name (codes value) ≡ true) × (length (codes value) ≤ max_length))
unfolding identifier
identifier_iff kind value = (
  (λ e. ground (arith, e)),
  (λ h.
      let filled = not_empty value h.0 in
      let trimmed = is_trimmed_of_name (codes value) h.0 in
      ground (arith, h.0, h.1, filled, trimmed)),
)
