-- ===== src/Io/Chunks/Merge.antt =====
-- Sorting and merging of block ranges in src/io/uring.rs.
use schelk.Base.{
  ℕ, ◌+◌, ◌*◌, ◌<◌, ◌≡◌, refl, true, List, [], ◌∷◌, leb, ◌==◌, arith, All, Bool-cases, inl, inr,
}
use native.Mathlib.Nat.{add_assoc}
use schelk.Base.Words.{u64_mod, add64, add64_fits}
use schelk.Io.Chunks.{BlockRange, insert_range, sort_ranges, merge_from, has_block}

-- The byte bounds of the range fit into a u64.
abbrev pub Fits : ℕ → BlockRange → Type 0
Fits g r = (r.start + r.len) * g < u64_mod

insert_range-has_block :
    (r : BlockRange) (rs : List BlockRange) (b : ℕ)
    → has_block (insert_range r rs) b ≡ has_block (r ∷ rs) b
unfolding insert_range
insert_range-has_block r [] b = refl
insert_range-has_block r (s ∷ rs) b = ground (arith, insert_range-has_block r rs b)

pub sort_ranges-has_block :
    (rs : List BlockRange) (b : ℕ) → has_block (sort_ranges rs) b ≡ has_block rs b
unfolding sort_ranges
sort_ranges-has_block [] b = refl
sort_ranges-has_block (r ∷ rs) b =
    ground (arith, insert_range-has_block r (sort_ranges rs) b, sort_ranges-has_block rs b)

insert_range-All {κ} :
    (P : BlockRange → Type κ) (r : BlockRange) (rs : List BlockRange)
    → P r
    → All P rs
    → All P (insert_range r rs)
unfolding insert_range
insert_range-All P r [] h hs = (h, tt)
insert_range-All P r (s ∷ rs) h hs = elim (Bool-cases (leb r.start s.start)) [
  | inl e ↦ rw e (h, hs)
  | inr e ↦ rw e (hs.0, insert_range-All P r rs h hs.1)
]

pub sort_ranges-All {κ} :
    (P : BlockRange → Type κ) (rs : List BlockRange) → All P rs → All P (sort_ranges rs)
unfolding sort_ranges
sort_ranges-All P [] hs = tt
sort_ranges-All P (r ∷ rs) hs =
    insert_range-All P r (sort_ranges rs) hs.0 (sort_ranges-All P rs hs.1)

pub end-Fits : (g : ℕ) (r : BlockRange) → 0 < g → Fits g r → r.start + r.len < u64_mod
end-Fits g r p h = grind arith

-- Ranges that are merged are adjacent, and their sums do not wrap.
pub joined :
    (g : ℕ) (last r : BlockRange)
    → 0 < g
    → Fits g last
    → Fits g r
    → (add64 last.start last.len == r.start) ≡ true
    → (add64 last.len r.len ≡ last.len + r.len) × (last.start + last.len ≡ r.start)
joined g last r p h k e =
    let adjacent : last.start + last.len ≡ r.start =
      ground (arith, add64_fits last.start last.len (end-Fits g last p h)) in
    (add64_fits last.len r.len (omega (arith, end-Fits g r p k)), adjacent)

pub joined-Fits :
    (g : ℕ) (last r : BlockRange)
    → 0 < g
    → Fits g last
    → Fits g r
    → (add64 last.start last.len == r.start) ≡ true
    → Fits g (record last { len = add64 last.len r.len })
joined-Fits g last r p h k e =
    let (sum, adjacent) = joined g last r p h k e in
    rw sum (rw (← add_assoc last.start last.len r.len) (rw adjacent k))

pub merge_from-has_block :
    (g : ℕ) (last : BlockRange) (rs : List BlockRange) (b : ℕ)
    → 0 < g
    → Fits g last
    → All (Fits g) rs
    → has_block (merge_from last rs) b ≡ has_block (last ∷ rs) b
unfolding merge_from
merge_from-has_block g last [] b p h hs = refl
merge_from-has_block g last (r ∷ rs) b p h hs =
    elim (Bool-cases (add64 last.start last.len == r.start)) [
      | inl e ↦
          rw (e, merge_from)
            (ground (
              arith,
              joined g last r p h hs.0 e,
              merge_from-has_block g (record last { len = add64 last.len r.len }) rs b p
                  (joined-Fits g last r p h hs.0 e) hs.1,
            ))
      | inr e ↦ rw (e, merge_from) (ground (arith, merge_from-has_block g r rs b p hs.0 hs.1))
    ]

pub merge_from-Fits :
    (g : ℕ) (last : BlockRange) (rs : List BlockRange)
    → 0 < g
    → Fits g last
    → All (Fits g) rs
    → All (Fits g) (merge_from last rs)
unfolding merge_from
merge_from-Fits g last [] p h hs = (h, tt)
merge_from-Fits g last (r ∷ rs) p h hs = elim (Bool-cases (add64 last.start last.len == r.start)) [
  | inl e ↦
      rw (e, merge_from)
        (merge_from-Fits g (record last { len = add64 last.len r.len }) rs p
          (joined-Fits g last r p h hs.0 e) hs.1)
  | inr e ↦ rw (e, merge_from) (h, merge_from-Fits g r rs p hs.0 hs.1)
]
