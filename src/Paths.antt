-- ===== src/Paths.antt =====
-- Paths of the standard library, as the program compares and joins them.
use schelk.Base.{ℕ, Bool, true, false, ◌&&◌, List, [], ◌∷◌, ◌==◌, not, if◌then◌else◌}
use schelk.Base.Text.{String, ◌<>◌, codes}
use schelk.Text.{split_by, drop_empty, codes_eq}
use schelk.Machine.{FilePath}

abbrev is_absolute : List ℕ → Bool
is_absolute [] = false
is_absolute (c ∷ cs) = c == b'/'

abbrev drop_dots : List (List ℕ) → List (List ℕ)
drop_dots [] = []
drop_dots (name ∷ names) =
    if codes_eq name (codes ".") then drop_dots names else name ∷ drop_dots names

-- A "." at the head of a relative path counts.
abbrev keep_head : List (List ℕ) → List (List ℕ)
keep_head [] = []
keep_head (name ∷ names) = name ∷ drop_dots names

-- Repeated slashes and "." do not count.
unfoldable pub components : List ℕ → List (List ℕ)
unfolding split_by
components path =
    let names = drop_empty (split_by (λ c. c == b'/') path) in
    if is_absolute path then drop_dots names else keep_head names

abbrev is_prefix : List (List ℕ) → List (List ℕ) → Bool
is_prefix [] names = true
is_prefix (a ∷ rest) [] = false
is_prefix (a ∷ rest) (b ∷ names) = codes_eq a b && is_prefix rest names

abbrev same_root : Bool → Bool → Bool
same_root true b = b
same_root false true = false
same_root false false = true

-- Path::starts_with, which compares whole components.
unfoldable pub path_starts_with : FilePath → FilePath → Bool
unfolding components
path_starts_with path base =
    same_root (is_absolute (codes base)) (is_absolute (codes path))
    && is_prefix (components (codes base)) (components (codes path))

-- The equality of paths, which compares them by components too.
unfoldable pub path_eq : FilePath → FilePath → Bool
unfolding path_starts_with
path_eq p q = path_starts_with p q && path_starts_with q p

abbrev needs_separator : List ℕ → Bool
needs_separator [] = false
needs_separator (c ∷ []) = not (c == b'/')
needs_separator (c ∷ d ∷ cs) = needs_separator (d ∷ cs)

-- Path::join with a name that is not an absolute path.
abbrev pub join : FilePath → String → FilePath
join dir name = if needs_separator (codes dir) then dir <> "/" <> name else dir <> name
