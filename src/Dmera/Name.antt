-- ===== src/Dmera/Name.antt =====
-- src/dmera.rs: `validate_name` and `is_version_below_1_0`.
pub mod Accepted
use schelk.Base.{
  ℕ, ◌^◌, Bool, true, false, ◌&&◌, ◌||◌, List, [], ◌∷◌, Option, none, some, ltb, leb, ◌==◌,
  if◌then◌else◌, Result, ok, err,
}
use schelk.Base.Text.{String, codes, parse_unsigned, is_digit}
use schelk.Error.{Error, empty_name, leading_dash, invalid_characters}
use schelk.Text.{split_by}

abbrev pub is_alphanumeric : ℕ → Bool
is_alphanumeric c = is_digit c || (leb b'A' c && leb c b'Z') || (leb b'a' c && leb c b'z')

abbrev pub is_name_char : ℕ → Bool
is_name_char c = is_alphanumeric c || c == b'.' || c == b'_' || c == b'+' || c == b'-'

abbrev pub all_name_chars : List ℕ → Bool
all_name_chars [] = true
all_name_chars (c ∷ cs) = is_name_char c && all_name_chars cs

-- Over the code points of the name.
unfoldable pub validate_codes : List ℕ → Result Error (Unit {0})
validate_codes [] = err empty_name
validate_codes (c ∷ cs) =
    if c == b'-'
    then err leading_dash
    else if all_name_chars (c ∷ cs)
    then ok tt
    else err invalid_characters

unfoldable pub validate_name : String → Result Error (Unit {0})
unfolding validate_codes
validate_name name = validate_codes (codes name)

abbrev is_below_one : Option ℕ → Bool
is_below_one none = false
is_below_one (some major) = ltb major 1

abbrev first_field : List (List ℕ) → List ℕ
first_field [] = []
first_field (field ∷ fields) = field

unfoldable pub is_version_below_1_0 : List ℕ → Bool
unfolding split_by parse_unsigned
is_version_below_1_0 version =
    is_below_one (parse_unsigned (2 ^ 32) (first_field (split_by (λ c. c == b'.') version)))
