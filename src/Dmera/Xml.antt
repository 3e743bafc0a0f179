-- ===== src/Dmera/Xml.antt =====
-- src/dmera.rs: `parse_era_invalidate_xml`, over the events of the XML reader. None stands for an
-- error of the reader; the list's end for the end of the text.
pub mod Bounds
pub mod RoundTrip
use schelk.Base.{
  ℕ, ◌-◌, List, [], ◌∷◌, ◌++◌, Option, none, some, ltb, if◌then◌else◌, Result, ok, err,
}
use schelk.Base.Words.{u64_mod}
use schelk.Base.Text.{String, str_eq, parse_unsigned}
use schelk.Error.{Error, xml_parse_error, invalid_value, missing_attribute, invalid_utf8}
use schelk.Machine.{Attr, XmlEvent, empty, eof, other}
use schelk.Io.Chunks.{BlockRange}

abbrev pub R : Type 0 → Type 0
R A = Result Error A

infixl 5 ◌>>=◌
abbrev pub ◌>>=◌ : {A B : Type 0} → R A → (A → R B) → R B
ok a >>= f = f a
err e >>= f = err e

abbrev pub ok_or : {A : Type 0} → Option A → Error → R A
ok_or none e = err e
ok_or (some a) e = ok a

-- attr.unescape_value()?.parse()? to a u64
unfoldable pub parse_value : Attr → R ℕ
unfolding parse_unsigned
parse_value attr =
    ok_or attr.value invalid_utf8 >>= λ val. ok_or (parse_unsigned u64_mod val) invalid_value

-- The loop over the attributes of a `range`; a later attribute overrides an earlier one.
unfoldable pub range_attrs : List Attr → Option ℕ → Option ℕ → R (Option ℕ × Option ℕ)
unfolding parse_value
range_attrs [] begin end = ok (begin, end)
range_attrs (attr ∷ attrs) begin end =
    let at_begin = parse_value attr >>= λ val. range_attrs attrs (some val) end in
    let at_end = parse_value attr >>= λ val. range_attrs attrs begin (some val) in
    let at_other = range_attrs attrs begin end in
    if str_eq attr.key "begin" then at_begin else if str_eq attr.key "end" then at_end else at_other

unfoldable pub block_attrs : List Attr → Option ℕ → R (Option ℕ)
unfolding parse_value
block_attrs [] block = ok block
block_attrs (attr ∷ attrs) block =
    let here = parse_value attr >>= λ val. block_attrs attrs (some val) in
    let at_other = block_attrs attrs block in if str_eq attr.key "block" then here else at_other

-- The ranges that one empty element contributes.
unfoldable pub parse_element : String → List Attr → R (List BlockRange)
unfolding range_attrs block_attrs
parse_element name attrs =
    if str_eq name "range"
    then (range_attrs attrs none none >>= λ (begin, end). ok_or begin missing_attribute >>= λ begin.
        ok_or end missing_attribute >>= λ end.
        ok (if ltb begin end then record { start = begin; len = end - begin } ∷ [] else []))
    else if str_eq name "block"
    then (block_attrs attrs none >>= λ block.
        ok_or block missing_attribute >>= λ block. ok (record { start = block; len = 1 } ∷ []))
    else ok []

-- The loop over the events, with the ranges found so far.
unfoldable pub parse_events : List (Option XmlEvent) → List BlockRange → R (List BlockRange)
unfolding parse_element
parse_events [] ranges = ok ranges
parse_events (none ∷ events) ranges = err xml_parse_error
parse_events (some eof ∷ events) ranges = ok ranges
parse_events (some other ∷ events) ranges = parse_events events ranges
parse_events (some (empty name attrs) ∷ events) ranges =
    parse_element name attrs >>= λ found. parse_events events (ranges ++ found)

unfoldable pub parse_era_invalidate_xml : List (Option XmlEvent) → R (List BlockRange)
unfolding parse_events
parse_era_invalidate_xml events = parse_events events []
