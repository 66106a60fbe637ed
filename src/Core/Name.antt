-- ===== src/Core/Name.antt =====
-- The lexical contract of runtime names: `_CONTRACT_NAME` of finite/contracts.py, `_STABLE_NAME` of
-- continuous/contracts.py and `_IDENTIFIER_PATTERN` of core/identifiers.py are one pattern.
use Prim.Native.Char.{code}
use ptf.Prelude.{ℕ, String, Bool, true, false, ◌&&◌, ◌||◌, List, [], ◌∷◌, leb, nat_eq}
use ptf.Core.Errors.{Result, require, value_error}

abbrev pub codes : String → List ℕ
codes String.[] = []
codes (String.◌∷◌ c s) = code c ∷ codes s

-- `[A-Za-z0-9]`
abbrev pub is_alphanumeric : ℕ → Bool
is_alphanumeric c =
    (leb b'A' c && leb c b'Z') || (leb b'a' c && leb c b'z') || (leb b'0' c && leb c b'9')

-- `[A-Za-z0-9._:/-]`
abbrev pub is_name_char : ℕ → Bool
is_name_char c =
    is_alphanumeric c
    || nat_eq c b'.'
    || nat_eq c b'_'
    || nat_eq c b':'
    || nat_eq c b'/'
    || nat_eq c b'-'

unfoldable pub all_name_chars : List ℕ → Bool
all_name_chars [] = true
all_name_chars (c ∷ cs) = is_name_char c && all_name_chars cs

-- `fullmatch` of `^[A-Za-z0-9][A-Za-z0-9._:/-]*$`
unfoldable pub matches_name : List ℕ → Bool
unfolding all_name_chars
matches_name [] = false
matches_name (c ∷ cs) = is_alphanumeric c && all_name_chars cs

-- `_require_contract_name`
unfoldable pub require_contract_name : String → String → Result (Unit {0})
require_contract_name name value =
    require (matches_name (codes value)) (value_error "must be a non-empty runtime name")
