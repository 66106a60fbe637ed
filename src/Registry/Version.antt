-- ===== src/Registry/Version.antt =====
-- The pattern `_SEMANTIC_VERSION` of src/distributed_runtime/registry.py. The build part starts at
-- the first `+` and the pre-release part at the first `-` before it; the parts are split at dots.
use ptf.Prelude.{
  ◌≡◌, refl, ℕ, String, Bool, true, false, ◌&&◌, ◌||◌, List, [], ◌∷◌, leb, nat_eq, not,
  if◌then◌else◌,
}
use ptf.Core.Errors.{Result, ok, require, registration_error, ◌>>◌}
use ptf.Core.Name.{codes, is_alphanumeric}
use ptf.Core.Text.{split_on, all_codes}

abbrev pub is_digit : ℕ → Bool
is_digit c = leb b'0' c && leb c b'9'

-- `[0-9A-Za-z-]`
abbrev pub is_version_char : ℕ → Bool
is_version_char c = is_alphanumeric c || nat_eq c b'-'

-- `0|[1-9][0-9]*`
unfoldable pub is_number : List ℕ → Bool
is_number [] = false
is_number (c ∷ []) = is_digit c
is_number (c ∷ d ∷ ds) = (is_digit c && not (nat_eq c b'0')) && all_codes is_digit (d ∷ ds)

-- `[0-9A-Za-z-]+`
unfoldable pub is_build_part : List ℕ → Bool
is_build_part [] = false
is_build_part (c ∷ cs) = all_codes is_version_char (c ∷ cs)

-- `0|[1-9][0-9]*|(?=[0-9A-Za-z-]*[A-Za-z-])[0-9A-Za-z-]+`
unfoldable pub is_release_part : List ℕ → Bool
unfolding is_number is_build_part
is_release_part cs = is_number cs || (is_build_part cs && not (all_codes is_digit cs))

unfoldable pub all_parts : (List ℕ → Bool) → List (List ℕ) → Bool
all_parts test [] = true
all_parts test (p ∷ ps) = test p && all_parts test ps

-- a part, and more of them behind dots
unfoldable pub matches_parts : (List ℕ → Bool) → List ℕ → Bool
unfolding all_parts
matches_parts test cs = let (first, rest) = split_on b'.' cs in test first && all_parts test rest

-- the text before the first `mark`, and whether the text behind it, if there is one, meets `test`
unfoldable pub cut_at : ℕ → (List ℕ → Bool) → List ℕ → List ℕ × Bool
cut_at mark test [] = ([], true)
cut_at mark test (c ∷ cs) =
    let (before, fits) = cut_at mark test cs in
    if nat_eq c mark then ([], test cs) else (c ∷ before, fits)

-- three numbers, of which the first was split off
unfoldable pub is_core : List ℕ → List (List ℕ) → Bool
is_core major (minor ∷ patch ∷ []) = is_number major && (is_number minor && is_number patch)
is_core major _ = false

-- `_SEMANTIC_VERSION.fullmatch`
unfoldable pub matches_version : List ℕ → Bool
unfolding cut_at is_core matches_parts is_release_part is_build_part
matches_version cs =
    let (left, built) = cut_at b'+' (matches_parts is_build_part) cs in
    let (core, released) = cut_at b'-' (matches_parts is_release_part) left in
    let (major, rest) = split_on b'.' core in is_core major rest && (released && built)

-- `_semantic_version`
unfoldable pub semantic_version : String → Result String
unfolding matches_version
semantic_version value = do
  require (matches_version (codes value))
      (registration_error "semantic_version must use major.minor.patch form")
  ok value

accepts_plain : semantic_version "1.20.3" ≡ ok "1.20.3"
unfolding semantic_version split_on all_codes is_number
accepts_plain = refl

accepts_full : matches_version (codes "1.0.0-rc.1-a.0+b-1.007") ≡ true
unfolding matches_version split_on all_codes is_number all_parts
accepts_full = refl

refuses_zero : matches_version (codes "1.02.3") ≡ false
unfolding matches_version split_on all_codes is_number all_parts
refuses_zero = refl

refuses_release_zero : matches_version (codes "1.2.3-01") ≡ false
unfolding matches_version split_on all_codes is_number all_parts
refuses_release_zero = refl

refuses_four : matches_version (codes "1.2.3.4") ≡ false
unfolding matches_version split_on all_codes is_number all_parts
refuses_four = refl

refuses_open_ends :
    (matches_version (codes "1.2.3-") ≡ false) × (matches_version (codes "1.2.3+") ≡ false)
unfolding matches_version split_on all_codes is_number all_parts
refuses_open_ends = (refl, refl)
