-- ===== src/Dmera/Name/Accepted.antt =====
-- The names that `validate_name` of src/dmera.rs accepts.
use schelk.Base.{
  ℕ, ◌≡◌, ◌≢◌, refl, true, false, Bool, List, [], ◌∷◌, ok, All, ◌==◌, arith, if◌then◌else◌, err,
}
use schelk.Error.{Error, leading_dash, invalid_characters}
use schelk.Text.{is_whitespace}
use schelk.Dmera.Name.{is_name_char, all_name_chars, validate_codes}

-- Neither a separator of paths or of words, nor one of arguments.
abbrev pub IsPlain : ℕ → Type 0
IsPlain c = (c ≢ b'/') × (c ≢ 0) × (is_whitespace c ≡ false)

plain : (c : ℕ) → is_name_char c ≡ true → IsPlain c
unfolding is_whitespace
plain c h = (ground arith, ground arith, ground arith)

chars-IsPlain : (cs : List ℕ) → all_name_chars cs ≡ true → All IsPlain cs
chars-IsPlain [] h = tt
chars-IsPlain (c ∷ cs) h = (plain c (ground arith), chars-IsPlain cs (ground arith))

both_tests :
    (dash chars : Bool) (e f : Error)
    → (if dash then err e else if chars then ok tt else err f) ≡ ok (tt {0})
    → (dash ≡ false) × (chars ≡ true)
both_tests true chars e f h = absurd (cc)
both_tests false true e f h = (refl, refl)
both_tests false false e f h = absurd (cc)

accepted :
    (c : ℕ) (cs : List ℕ)
    → validate_codes (c ∷ cs) ≡ ok tt
    → (c ≢ b'-') × (all_name_chars (c ∷ cs) ≡ true)
unfolding validate_codes
accepted c cs h =
    let (no_dash, chars) =
      both_tests (c == b'-') (all_name_chars (c ∷ cs)) leading_dash invalid_characters h in
    (ground arith, chars)

-- A name that is accepted is not empty, does not start with a dash, and none of its characters is a
-- slash, a null or white space.
pub validate_codes-IsPlain :
    (cs : List ℕ)
    → validate_codes cs ≡ ok tt
    → (cs ≢ []) × All IsPlain cs × ((rest : List ℕ) → cs ≢ (b'-' ∷ rest))
unfolding validate_codes
validate_codes-IsPlain [] h = absurd (cc)
validate_codes-IsPlain (c ∷ cs) h =
    let (no_dash, chars) = accepted c cs h in
    (λ e. cc, chars-IsPlain (c ∷ cs) chars, λ rest e. no_dash (cc))
