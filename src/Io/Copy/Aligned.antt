-- ===== src/Io/Copy/Aligned.antt =====
-- When the chunks of a sparse copy pass the alignment check of `run_copy`.
use schelk.Base.{
  ℕ, ◌*◌, ◌%◌, ◌<◌, ◌≡◌, ◌≢◌, refl, ap, ◌∙◌, sym, true, false, Bool, List, [], ◌∷◌, ◌&&◌, ◌==◌,
  some, err, All, Bool-cases, inl, inr, arith, ==_iff,
}
use native.Mathlib.Nat.{dvd_of_mod-eq-zero, mod-eq-zero_of_dvd, dvd_trans}
use schelk.Error.{misaligned}
use schelk.Io.Chunks.{BlockRange, CopyChunk, prepare_chunks, IsBlockwise, total_len, total_blocks}
use schelk.Io.Chunks.Merge.{Fits}
use schelk.Io.Chunks.Bounds.{prepare_chunks-IsBlockwise, total_len-prepare_chunks}
use schelk.Io.Ring.{Bytes, Config}
use schelk.Io.Copy.{Rig, is_aligned, all_aligned, run_workers}

-- A multiple of a multiple of 4096.
multiple : (n g : ℕ) → n % g ≡ 0 → g % 4096 ≡ 0 → n % 4096 ≡ 0
multiple n g h k =
    mod-eq-zero_of_dvd 4096 (dvd_trans 4096 (dvd_of_mod-eq-zero 4096 k) (dvd_of_mod-eq-zero g h))

aligned_blockwise :
    (g : ℕ) (cs : List CopyChunk) → g % 4096 ≡ 0 → All (IsBlockwise g) cs → all_aligned cs ≡ true
aligned_blockwise g [] p h = refl
aligned_blockwise g (c ∷ cs) p h =
    rw
      (
        multiple c.offset g h.0.offset_blocks p,
        multiple c.len g h.0.len_blocks p,
        aligned_blockwise g cs p h.1,
      )
      refl

-- With a granularity that is a multiple of 4096, every chunk of a sparse copy passes the alignment
-- check, for ranges whose byte bounds fit into a u64.
pub all_aligned-prepare_chunks :
    (rs : List BlockRange) (g : ℕ)
    → 0 < g
    → g % 4096 ≡ 0
    → All (Fits g) rs
    → all_aligned (prepare_chunks rs g) ≡ true
all_aligned-prepare_chunks rs g p k f =
    aligned_blockwise g (prepare_chunks rs g) k (prepare_chunks-IsBlockwise rs g p f)

both : (a b : Bool) → (a && b) ≡ true → (a ≡ true) × (b ≡ true)
both true b h = (refl, h)
both false b h = absurd (cc)

aligned_total : (cs : List CopyChunk) → all_aligned cs ≡ true → total_len cs % 4096 ≡ 0
aligned_total [] h = refl
aligned_total (c ∷ cs) h =
    let (first, rest) = both (is_aligned c) (all_aligned cs) h in
    let (offset_aligned, len_aligned) = both (c.offset % 4096 == 0) (c.len % 4096 == 0) first in
    omega (arith, (==_iff (c.len % 4096) 0).0 len_aligned, aligned_total cs rest)

-- If the changed blocks together are no multiple of 4096 bytes, the copy fails and writes nothing,
-- for ranges whose byte bounds fit into a u64. A granularity of 512 bytes, which is accepted, and a
-- single changed block are such a case.
pub run_workers-misaligned :
    (rig : Rig) (c : Config) (src dst : Bytes) (rs : List BlockRange) (g : ℕ)
    → 0 < g
    → All (Fits g) rs
    → (total_blocks rs * g) % 4096 ≢ 0
    → run_workers rig c src (prepare_chunks rs g) dst
      ≡ record { result = some (err misaligned); shared = record { dst = dst; copied = 0 } }
unfolding run_workers
run_workers-misaligned rig c src dst rs g p f n =
    elim (Bool-cases (all_aligned (prepare_chunks rs g))) [
      | inl yes_aligned ↦ absurd (
          n (
            ap (λ t. t % 4096) (sym (total_len-prepare_chunks rs g p f))
            ∙ aligned_total (prepare_chunks rs g) yes_aligned))
      | inr no_aligned ↦ rw (run_workers, no_aligned) refl
    ]
