-- ===== src/Core/Text.antt =====
-- What the program uses of Python's `str`, on the code points of a text.
use ptf.Prelude.{
  ℕ, String, Bool, true, false, ◌&&◌, ◌||◌, List, [], ◌∷◌, ltb, leb, nat_eq, not, if◌then◌else◌,
}
use ptf.Core.Name.{codes}

-- `isspace` of a code point
abbrev pub is_space : ℕ → Bool
is_space c =
    (leb 9 c && leb c 13)
    || (leb 28 c && leb c 32)
    || nat_eq c 133
    || nat_eq c 160
    || nat_eq c 5760
    || (leb 8192 c && leb c 8202)
    || nat_eq c 8232
    || nat_eq c 8233
    || nat_eq c 8239
    || nat_eq c 8287
    || nat_eq c 12288

-- no white space at the end of the text `c ∷ cs`
unfoldable pub ends_trimmed : ℕ → List ℕ → Bool
ends_trimmed c [] = not (is_space c)
ends_trimmed c (d ∷ ds) = ends_trimmed d ds

-- `value == value.strip()`
unfoldable pub is_trimmed : List ℕ → Bool
unfolding ends_trimmed
is_trimmed [] = true
is_trimmed (c ∷ cs) = not (is_space c) && ends_trimmed c cs

-- `value and value == value.strip()`
unfoldable pub is_required : String → Bool
unfolding is_trimmed
is_required String.[] = false
is_required (String.◌∷◌ c s) = is_trimmed (codes (String.◌∷◌ c s))

-- `a <= b` of texts, by code points
unfoldable pub codes_le : List ℕ → List ℕ → Bool
codes_le [] ds = true
codes_le (c ∷ cs) [] = false
codes_le (c ∷ cs) (d ∷ ds) = ltb c d || (nat_eq c d && codes_le cs ds)

abbrev pub text_le : String → String → Bool
text_le a b = codes_le (codes a) (codes b)

-- `value.split(separator)`, of one character
unfoldable pub split_on : ℕ → List ℕ → List ℕ × List (List ℕ)
split_on separator [] = ([], [])
split_on separator (c ∷ cs) =
    let (first, rest) = split_on separator cs in
    if nat_eq c separator then ([], first ∷ rest) else (c ∷ first, rest)

-- a test of every code point
unfoldable pub all_codes : (ℕ → Bool) → List ℕ → Bool
all_codes test [] = true
all_codes test (c ∷ cs) = test c && all_codes test cs
