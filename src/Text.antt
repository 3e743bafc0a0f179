-- ===== src/Text.antt =====
-- Text functions of the standard library that the program calls, over code points.
use schelk.Base.{
  ℕ, ◌+◌, Bool, true, false, ◌&&◌, ◌||◌, List, [], ◌∷◌, leb, ◌==◌, if◌then◌else◌, map,
}

-- char::is_whitespace
unfoldable pub is_whitespace : ℕ → Bool
is_whitespace c =
    (leb 9 c && leb c 13)
    || c == 32
    || c == 0x85
    || c == 0xa0
    || c == 0x1680
    || (leb 0x2000 c && leb c 0x200a)
    || c == 0x2028
    || c == 0x2029
    || c == 0x202f
    || c == 0x205f
    || c == 0x3000

abbrev pub codes_eq : List ℕ → List ℕ → Bool
codes_eq [] [] = true
codes_eq (a ∷ s) (b ∷ t) = a == b && codes_eq s t
codes_eq _ _ = false

unfoldable pub trim_start : List ℕ → List ℕ
unfolding is_whitespace
trim_start [] = []
trim_start (c ∷ cs) = let rest = trim_start cs in if is_whitespace c then rest else c ∷ cs

unfoldable pub trim_end : List ℕ → List ℕ
unfolding is_whitespace
trim_end [] = []
trim_end (c ∷ cs) = elim (trim_end cs) [
  | [] ↦ if is_whitespace c then [] else c ∷ []
  | d ∷ ds ↦ c ∷ d ∷ ds
]

unfoldable pub trim : List ℕ → List ℕ
unfolding trim_start trim_end
trim s = trim_end (trim_start s)

-- The fields of a text between separators; the last field is what follows the last separator.
unfoldable pub split_by : (ℕ → Bool) → List ℕ → List (List ℕ)
split_by sep [] = [] ∷ []
split_by sep (c ∷ cs) = elim (split_by sep cs) [
  | [] ↦ (c ∷ []) ∷ []
  | field ∷ fields ↦ if sep c then [] ∷ field ∷ fields else (c ∷ field) ∷ fields
]

abbrev pub drop_empty : List (List ℕ) → List (List ℕ)
drop_empty [] = []
drop_empty ([] ∷ fields) = drop_empty fields
drop_empty ((c ∷ cs) ∷ fields) = (c ∷ cs) ∷ drop_empty fields

unfoldable pub split_whitespace : List ℕ → List (List ℕ)
unfolding split_by is_whitespace
split_whitespace s = drop_empty (split_by is_whitespace s)

-- The lines of a text; a last line that is empty has no field and does not matter here.
unfoldable pub lines : List ℕ → List (List ℕ)
unfolding split_by
lines s = split_by (λ c. c == 10) s

-- The ASCII part of to_lowercase; no other letter turns into one of "yes".
abbrev pub lowercase : List ℕ → List ℕ
lowercase = map λ c. if leb b'A' c && leb c b'Z' then c + 32 else c
