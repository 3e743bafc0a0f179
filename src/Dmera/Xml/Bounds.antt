-- ===== src/Dmera/Xml/Bounds.antt =====
-- What the ranges that `parse_era_invalidate_xml` gives look like.
use schelk.Base.{
  ℕ, ◌+◌, ◌-◌, ◌*◌, ◌≤◌, ◌<◌, ◌≡◌, refl, List, [], ◌∷◌, ◌++◌, Option, none, subst, some, ltb,
  ltb→lt, if◌then◌else◌, ok, err, All, All-append, Bool-cases, inl, inr, arith, ◌&&◌, ◌==◌,
}
use schelk.Base.Words.{u64_mod}
use schelk.Base.Text.{parse_digits, parse_unsigned, is_digit, str_eq, String}
use schelk.Error.{Error, invalid_value, invalid_utf8, missing_attribute}
use schelk.Machine.{Attr, XmlEvent, empty, eof, other}
use schelk.Io.Chunks.{BlockRange}
use schelk.Dmera.Xml.{
  parse_value, range_attrs, block_attrs, parse_element, parse_events, parse_era_invalidate_xml,
  ok_or, ◌>>=◌, R,
}

parse_digits-bound :
    (bound acc n : ℕ) (cs : List ℕ) → acc < bound → parse_digits bound acc cs ≡ some n → n < bound
unfolding parse_digits
parse_digits-bound bound acc n [] h e = grind arith
parse_digits-bound bound acc n (c ∷ cs) h e =
    elim (Bool-cases (is_digit c && ltb (acc * 10 + (c - b'0')) bound)) [
      | inl fits ↦
          parse_digits-bound bound (acc * 10 + (c - b'0')) n cs (ground arith)
            (rw (parse_digits, fits) at e)
      | inr over ↦ absurd (let q = rw (parse_digits, over) at e in cc)
    ]

parse_unsigned-bound :
    (bound n : ℕ) (cs : List ℕ) → 0 < bound → parse_unsigned bound cs ≡ some n → n < bound
unfolding parse_unsigned
parse_unsigned-bound bound n [] h e = absurd (cc)
parse_unsigned-bound bound n (c ∷ []) h e = parse_digits-bound bound 0 n (c ∷ []) h e
parse_unsigned-bound bound n (c ∷ d ∷ cs) h e = elim (Bool-cases (c == b'+')) [
  | inl plus ↦ parse_digits-bound bound 0 n (d ∷ cs) h (rw (parse_unsigned, plus) at e)
  | inr digit ↦ parse_digits-bound bound 0 n (c ∷ d ∷ cs) h (rw (parse_unsigned, digit) at e)
]

-- A range that ends within 2^64 blocks, and has one block at least.
abbrev pub IsU64Range : BlockRange → Type 0
IsU64Range r = (0 < r.len) × (r.start + r.len ≤ u64_mod)

abbrev IsU64Option : Option ℕ → Type 0
IsU64Option none = Unit {0}
IsU64Option (some n) = n < u64_mod

-- What holds of a result, if there is one.
abbrev Post : {A : Type 0} → (A → Type 0) → R A → Type 0
Post P (ok a) = P a
Post P (err e) = Unit {0}

Post-bind :
    {A B : Type 0} (P : A → Type 0) (Q : B → Type 0) (r : R A) (f : A → R B)
    → Post P r
    → ((a : A) → P a → Post Q (f a))
    → Post Q (r >>= f)
Post-bind P Q (ok a) f h g = g a h
Post-bind P Q (err e) f h g = tt

ok_or-parsed :
    (o : Option ℕ) (e : Error)
    → ((n : ℕ) → o ≡ some n → n < u64_mod)
    → Post (λ n. n < u64_mod) (ok_or o e)
ok_or-parsed none e h = tt
ok_or-parsed (some n) e h = h n refl

ok_or-kept : (o : Option ℕ) (e : Error) → IsU64Option o → Post (λ n. n < u64_mod) (ok_or o e)
ok_or-kept none e h = tt
ok_or-kept (some n) e h = h

parse_value-bound : (attr : Attr) → Post (λ n. n < u64_mod) (parse_value attr)
unfolding parse_value
parse_value-bound attr =
    Post-bind (λ _. Unit {0}) (λ n. n < u64_mod) (ok_or attr.value invalid_utf8)
      (λ val. ok_or (parse_unsigned u64_mod val) invalid_value)
      (anything (ok_or attr.value invalid_utf8))
      (λ val _.
        ok_or-parsed (parse_unsigned u64_mod val) invalid_value
          (λ n e. parse_unsigned-bound u64_mod n val (omega arith) e))
  where
    anything : {A : Type 0} (r : R A) → Post (λ _. Unit {0}) r
    anything (ok a) = tt
    anything (err e) = tt

range_attrs-bound :
    (attrs : List Attr) (begin end : Option ℕ)
    → IsU64Option begin
    → IsU64Option end
    → Post (λ p. IsU64Option p.0 × IsU64Option p.1) (range_attrs attrs begin end)
unfolding range_attrs
range_attrs-bound [] begin end h k = (h, k)
range_attrs-bound (attr ∷ attrs) begin end h k = elim (Bool-cases (str_eq attr.key "begin")) [
  | inl is_begin ↦
      rw (range_attrs, is_begin)
        (Post-bind (λ n. n < u64_mod) (λ p. IsU64Option p.0 × IsU64Option p.1) (parse_value attr)
          (λ val. range_attrs attrs (some val) end) (parse_value-bound attr)
          (λ n b. range_attrs-bound attrs (some n) end b k))
  | inr no_begin ↦ elim (Bool-cases (str_eq attr.key "end")) [
    | inl is_end ↦
        rw (range_attrs, no_begin, is_end)
          (Post-bind (λ n. n < u64_mod) (λ p. IsU64Option p.0 × IsU64Option p.1) (parse_value attr)
            (λ val. range_attrs attrs begin (some val)) (parse_value-bound attr)
            (λ n b. range_attrs-bound attrs begin (some n) h b))
    | inr no_end ↦ rw (range_attrs, no_begin, no_end) (range_attrs-bound attrs begin end h k)
  ]
]

block_attrs-bound :
    (attrs : List Attr) (block : Option ℕ)
    → IsU64Option block
    → Post IsU64Option (block_attrs attrs block)
unfolding block_attrs
block_attrs-bound [] block h = h
block_attrs-bound (attr ∷ attrs) block h = elim (Bool-cases (str_eq attr.key "block")) [
  | inl is_block ↦
      rw (block_attrs, is_block)
        (Post-bind (λ n. n < u64_mod) IsU64Option (parse_value attr)
          (λ val. block_attrs attrs (some val)) (parse_value-bound attr)
          (λ n b. block_attrs-bound attrs (some n) b))
  | inr not_block ↦ rw (block_attrs, not_block) (block_attrs-bound attrs block h)
]

new_range :
    (begin end : ℕ)
    → end < u64_mod
    → All IsU64Range
        (if ltb begin end then record { start = begin; len = end - begin } ∷ [] else [])
new_range begin end h = elim (Bool-cases (ltb begin end)) [
  | inl lt ↦ rw lt ((omega (arith, ltb→lt begin end lt), omega (arith, ltb→lt begin end lt)), tt)
  | inr ge ↦ rw ge tt
]

parse_range-IsU64Range :
    (attrs : List Attr)
    → Post (All IsU64Range) (
        range_attrs attrs none none >>= λ (begin, end). ok_or begin missing_attribute >>= λ begin.
        ok_or end missing_attribute >>= λ end.
        ok (if ltb begin end then record { start = begin; len = end - begin } ∷ [] else []))
parse_range-IsU64Range attrs =
    Post-bind (λ p. IsU64Option p.0 × IsU64Option p.1) (All IsU64Range)
      (range_attrs attrs none none) _ (range_attrs-bound attrs none none tt tt)
      (λ (begin, end) h.
        Post-bind (λ n. n < u64_mod) (All IsU64Range) (ok_or begin missing_attribute) _
          (ok_or-kept begin missing_attribute h.0)
          (λ b hb.
            Post-bind (λ n. n < u64_mod) (All IsU64Range) (ok_or end missing_attribute) _
              (ok_or-kept end missing_attribute h.1) (λ e he. new_range b e he)))

parse_block-IsU64Range :
    (attrs : List Attr)
    → Post (All IsU64Range) (
        block_attrs attrs none >>= λ block.
        ok_or block missing_attribute >>= λ block. ok (record { start = block; len = 1 } ∷ []))
parse_block-IsU64Range attrs =
    Post-bind IsU64Option (All IsU64Range) (block_attrs attrs none) _
      (block_attrs-bound attrs none tt)
      (λ block h.
        Post-bind (λ n. n < u64_mod) (All IsU64Range) (ok_or block missing_attribute) _
          (ok_or-kept block missing_attribute h) (λ n b. ((omega arith, omega arith), tt)))

parse_element-IsU64Range :
    (name : String) (attrs : List Attr) → Post (All IsU64Range) (parse_element name attrs)
unfolding parse_element
parse_element-IsU64Range name attrs = elim (Bool-cases (str_eq name "range")) [
  | inl range ↦ rw (parse_element, range) (parse_range-IsU64Range attrs)
  | inr other_name ↦ elim (Bool-cases (str_eq name "block")) [
    | inl block ↦ rw (parse_element, other_name, block) (parse_block-IsU64Range attrs)
    | inr neither ↦ rw (parse_element, other_name, neither) tt
  ]
]

parse_events-IsU64Range :
    (events : List (Option XmlEvent)) (ranges : List BlockRange)
    → All IsU64Range ranges
    → Post (All IsU64Range) (parse_events events ranges)
unfolding parse_events
parse_events-IsU64Range [] ranges h = h
parse_events-IsU64Range (none ∷ events) ranges h = tt
parse_events-IsU64Range (some eof ∷ events) ranges h = h
parse_events-IsU64Range (some other ∷ events) ranges h = parse_events-IsU64Range events ranges h
parse_events-IsU64Range (some (empty name attrs) ∷ events) ranges h =
    Post-bind (All IsU64Range) (All IsU64Range) (parse_element name attrs)
      (λ found. parse_events events (ranges ++ found)) (parse_element-IsU64Range name attrs)
      (λ found k.
        parse_events-IsU64Range events (ranges ++ found) (All-append IsU64Range ranges found h k))

of_Post : {A : Type 0} (P : A → Type 0) (r : R A) (a : A) → Post P r → r ≡ ok a → P a
of_Post P (ok b) a h e = let same : b ≡ a = cc in subst P same h
of_Post P (err x) a h e = absurd (cc)

-- Every range that is parsed, from any document, has at least one block and ends within 2^64 blocks.
pub parse_era_invalidate_xml-IsU64Range :
    (events : List (Option XmlEvent)) (ranges : List BlockRange)
    → parse_era_invalidate_xml events ≡ ok ranges
    → All IsU64Range ranges
unfolding parse_era_invalidate_xml
parse_era_invalidate_xml-IsU64Range events ranges e =
    of_Post (All IsU64Range) (parse_events events []) ranges (parse_events-IsU64Range events [] tt)
      e
