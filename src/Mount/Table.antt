-- ===== src/Mount/Table.antt =====
-- What `is_mounted` of src/mount.rs finds in a mount table.
use schelk.Base.{
  ℕ, ◌≡◌, ◌≢◌, refl, true, false, Bool, ◌||◌, List, [], ◌∷◌, ◌++◌, All, ◌==◌, if◌then◌else◌, arith,
  All-append,
}
use schelk.Text.{is_whitespace, split_by, split_whitespace, lines, drop_empty, codes_eq}
use schelk.Mount.{lists_mount}

-- A line of the table: what is mounted, where, and the rest.
pub record MountEntry : Type 0 where
  pub device : List ℕ
  pub point : List ℕ
  pub rest : List ℕ

abbrev pub render : MountEntry → List ℕ
render e = e.device ++ (32 ∷ (e.point ++ (32 ∷ e.rest)))

abbrev pub table : List MountEntry → List ℕ
table [] = []
table (e ∷ es) = render e ++ 10 ∷ table es

abbrev pub IsWord : List ℕ → Type 0
IsWord word = (word ≢ []) × All (λ c. is_whitespace c ≡ false) word

-- Both fields are words, and the line has no line break.
pub record IsEntry (e : MountEntry) : Type 0 where
  pub device_word : IsWord e.device
  pub point_word : IsWord e.point
  pub one_line : All (λ c. (c == 10) ≡ false) e.rest

abbrev pub has_point : List ℕ → List MountEntry → Bool
has_point path [] = false
has_point path (e ∷ es) = codes_eq e.point path || has_point path es

split_by-cases :
    (sep : ℕ → Bool) (s : List ℕ)
    → (field : List ℕ) × (fields : List (List ℕ)) × (split_by sep s ≡ (field ∷ fields))
unfolding split_by
split_by-cases sep [] = ([], [], refl)
split_by-cases sep (c ∷ cs) =
    let (field, fields, e) = split_by-cases sep cs in
    rw (split_by, e) (whichever (sep c) field fields)
  where
    whichever :
        (b : Bool) (f : List ℕ) (fs : List (List ℕ))
        → (field : List ℕ) × (fields : List (List ℕ)) × ((if b then [] ∷ f ∷ fs else (c ∷ f) ∷ fs)
            ≡ (field ∷ fields))
    whichever true f fs = ([], f ∷ fs, refl)
    whichever false f fs = (c ∷ f, fs, refl)

-- Up to a separator there is one field.
split_by-append :
    (sep : ℕ → Bool) (c : ℕ) (xs ys : List ℕ)
    → sep c ≡ true
    → All (λ x. sep x ≡ false) xs
    → split_by sep (xs ++ c ∷ ys) ≡ (xs ∷ split_by sep ys)
unfolding split_by
split_by-append sep c [] ys h f =
    let (field, fields, e) = split_by-cases sep ys in rw (split_by, e, h) refl
split_by-append sep c (x ∷ xs) ys h f = rw (split_by, split_by-append sep c xs ys h f.1, f.0) refl

kept_word :
    (word : List ℕ) (fields : List (List ℕ))
    → word ≢ []
    → drop_empty (word ∷ fields) ≡ (word ∷ drop_empty fields)
kept_word [] fields h = absurd (h refl)
kept_word (c ∷ cs) fields h = refl

blank : is_whitespace 32 ≡ true
unfolding is_whitespace
blank = refl

-- The first two words of a line are its first two fields.
split_whitespace-render :
    (e : MountEntry)
    → IsEntry e
    → split_whitespace (render e)
      ≡ (e.device ∷ e.point ∷ drop_empty (split_by is_whitespace e.rest))
unfolding split_whitespace
split_whitespace-render e h =
    rw
      (
        split_by-append is_whitespace 32 e.device (e.point ++ (32 ∷ e.rest)) blank h.device_word.1,
        split_by-append is_whitespace 32 e.point e.rest blank h.point_word.1,
        kept_word e.device (e.point ∷ split_by is_whitespace e.rest) h.device_word.0,
        kept_word e.point (split_by is_whitespace e.rest) h.point_word.0,
      )
      refl

no_break : (c : ℕ) → is_whitespace c ≡ false → (c == 10) ≡ false
unfolding is_whitespace
no_break c h = ground arith

word_one_line :
    (word : List ℕ) → All (λ c. is_whitespace c ≡ false) word → All (λ c. (c == 10) ≡ false) word
word_one_line [] h = tt
word_one_line (c ∷ cs) h = (no_break c h.0, word_one_line cs h.1)

render_one_line : (e : MountEntry) → IsEntry e → All (λ c. (c == 10) ≡ false) (render e)
render_one_line e h =
    All-append (λ c. (c == 10) ≡ false) e.device (32 ∷ (e.point ++ (32 ∷ e.rest)))
      (word_one_line e.device h.device_word.1)
      (
        refl,
        All-append (λ c. (c == 10) ≡ false) e.point (32 ∷ e.rest)
            (word_one_line e.point h.point_word.1) (refl, h.one_line),
      )

-- In a table of lines, each of two words and a rest, a path is found exactly if it is the second word
-- of a line.
pub lists_mount-table :
    (path : List ℕ) (es : List MountEntry)
    → All IsEntry es
    → lists_mount path (table es) ≡ has_point path es
unfolding lists_mount lines
lists_mount-table path [] h = refl
lists_mount-table path (e ∷ es) h =
    rw
      (
        split_by-append (λ c. c == 10) 10 (render e) (table es) refl (render_one_line e h.0),
        split_whitespace-render e h.0,
        lists_mount-table path es h.1,
      )
      refl
