-- ===== src/Dmera/Xml/RoundTrip.antt =====
-- `parse_era_invalidate_xml` of src/dmera.rs and the reports that era_invalidate prints.
use schelk.Base.{
  ℕ, ◌-◌, ◌<◌, ◌≡◌, refl, ap, sym, ◌∙◌, List, [], ◌∷◌, ◌++◌, Option, some, ok, arith, lt→ltb,
}
use mathlib.Core.List.{append-nil, append_assoc}
use schelk.Base.Words.{u64_mod}
use schelk.Base.Text.{String, codes, decimal}
use schelk.Base.Text.Decimal.{parse_unsigned-decimal}
use schelk.Error.{invalid_value}
use schelk.Machine.{Attr, XmlEvent, empty, eof, other}
use schelk.Io.Chunks.{BlockRange}
use schelk.Dmera.Xml.{
  parse_value, range_attrs, block_attrs, parse_element, parse_events, parse_era_invalidate_xml,
  ok_or,
}

abbrev pub attr : String → ℕ → Attr
attr key n = record { key = key; value = some (codes (decimal n)) }

abbrev pub one : ℕ → BlockRange
one n = record { start = n; len = 1 }

-- The blocks from the first up to before the other.
abbrev pub between : ℕ → ℕ → BlockRange
between begin end = record { start = begin; len = end - begin }

-- The events of a report of the ranges: an element for each of them, `block` for one block or `range`
-- with the block after the last, and anything but empty elements between them.
pub data IsReport : List (Option XmlEvent) → List BlockRange → Type 0 where
  ends : {events : List (Option XmlEvent)} → IsReport (some eof ∷ events) []
  skip :
      {events : List (Option XmlEvent)} {rs : List BlockRange}
      → IsReport events rs
      → IsReport (some other ∷ events) rs
  block :
      {events : List (Option XmlEvent)} {rs : List BlockRange} (n : ℕ)
      → n < u64_mod
      → IsReport events rs
      → IsReport (some (empty "block" (attr "block" n ∷ [])) ∷ events) (one n ∷ rs)
  range :
      {events : List (Option XmlEvent)} {rs : List BlockRange} (begin end : ℕ)
      → begin < end
      → end < u64_mod
      → IsReport events rs
      → IsReport
          (some (empty "range" (attr "begin" begin ∷ attr "end" end ∷ [])) ∷ events)
          (between begin end ∷ rs)

parse_value-attr : (key : String) (n : ℕ) → n < u64_mod → parse_value (attr key n) ≡ ok n
unfolding parse_value
parse_value-attr key n h =
    ap (λ o. ok_or o invalid_value) (parse_unsigned-decimal u64_mod n h (omega arith))

parse_element-block :
    (n : ℕ) → n < u64_mod → parse_element "block" (attr "block" n ∷ []) ≡ ok (one n ∷ [])
unfolding parse_element block_attrs
parse_element-block n h = rw (parse_value-attr "block" n h) refl

parse_element-range :
    (begin end : ℕ)
    → begin < end
    → end < u64_mod
    → parse_element "range" (attr "begin" begin ∷ attr "end" end ∷ []) ≡ ok (between begin end ∷ [])
unfolding parse_element range_attrs
parse_element-range begin end lt h =
    rw
      (
        parse_value-attr "begin" begin (omega arith),
        parse_value-attr "end" end h,
        lt→ltb begin end lt,
      )
      refl

parse_events-IsReport :
    {events : List (Option XmlEvent)} {rs : List BlockRange} (found : List BlockRange)
    → IsReport events rs
    → parse_events events found ≡ ok (found ++ rs)
unfolding parse_events
parse_events-IsReport found ends = ap ok (sym (append-nil found))
parse_events-IsReport found (skip rest) = parse_events-IsReport found rest
parse_events-IsReport found (block n h rest) =
    rw (parse_element-block n h)
      (parse_events-IsReport (found ++ one n ∷ []) rest ∙ ap ok (append_assoc found (one n ∷ []) _))
parse_events-IsReport found (range begin end lt h rest) = rw (parse_element-range begin end lt h) (
    parse_events-IsReport (found ++ between begin end ∷ []) rest
    ∙ ap ok (append_assoc found (between begin end ∷ []) _))

-- Of every report with blocks below 2^64 exactly the ranges are read that it was printed from, in its
-- order.
pub parse_era_invalidate_xml-IsReport :
    {events : List (Option XmlEvent)} {rs : List BlockRange}
    → IsReport events rs
    → parse_era_invalidate_xml events ≡ ok rs
unfolding parse_era_invalidate_xml
parse_era_invalidate_xml-IsReport report = parse_events-IsReport [] report
