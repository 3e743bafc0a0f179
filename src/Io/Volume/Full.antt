-- ===== src/Io/Volume/Full.antt =====
-- `full_copy` of src/io/uring.rs.
use schelk.Base.{
  ℕ, ◌+◌, ◌<◌, ◌≡◌, refl, sym, subst, ap, ◌∙◌, if◌then◌else◌, arith, ok, Option, none, some, lt→ltb,
}
use schelk.Base.Words.{u64_mod}
use schelk.Error.{os_error}
use schelk.Io.Chunks.{sequential_chunks, full_copy_chunk_size, align_up}
use schelk.Io.Chunks.Cover.{covers_aligned, align_up_lem}
use schelk.Io.Chunks.Bounds.{sequential_chunks-small}
use schelk.Machine.{Machine, FilePath, Access, read}
use schelk.Effect.{M, pure, ◌>>◌, ◌>>=◌, check, ask}
use schelk.Effect.Laws.{bind_ok, seq_ok}
use schelk.Io.Volume.{get_size, full_copy, run_copy, full_copy_config, or_seek, positive}
use schelk.Io.Volume.Exact.{IsVolumePair, HonestCopy, run_copy_exact}

-- To ask for the size of a file does not change the contents of the device.
pub record QueriesKeep (m : Machine) (path : FilePath) : Type 0 where
  pub open_keeps :
      (a : Access) (p : FilePath) (w : m.World) → m.disk path (m.open_as a p w).1 ≡ m.disk path w
  pub metadata_keeps : (p : FilePath) (w : m.World) → m.disk path (m.metadata p w).1 ≡ m.disk path w
  pub seek_keeps : (p : FilePath) (w : m.World) → m.disk path (m.seek_end p w).1 ≡ m.disk path w

module _ (m : Machine) (path : FilePath) (keeps : QueriesKeep m path) where
  or_seek-disk :
      (p : FilePath) (o : Option ℕ) (w : m.World) → m.disk path (or_seek m p o w).1 ≡ m.disk path w
  or_seek-disk p none w = keeps.seek_keeps p w
  or_seek-disk p (some size) w = refl

  get_size-disk :
      (p : FilePath) (size : ℕ) (w : m.World)
      → (get_size m p w).0 ≡ ok size
      → m.disk path (get_size m p w).1 ≡ m.disk path w
  unfolding get_size
  get_size-disk p size w e =
      let (u, opened, found, last) =
        seq_ok (check (m.open_as read p) os_error)
          (ask (m.metadata p) >>= λ found. or_seek m p (positive m found)) w size e in
      let w1 = (m.open_as read p w).1 in
      ap (m.disk path) last
      ∙ or_seek-disk p (positive m (m.metadata p w1).0) (m.metadata p w1).1
      ∙ keeps.metadata_keeps p w1
      ∙ keeps.open_keeps read p w

module _ (m : Machine) (src dst : FilePath) (pair : IsVolumePair m src dst)
    (keeps : QueriesKeep m src) where
  -- A full copy of so many bytes, and what is left of the byte on both devices.
  abbrev copy_of : ℕ → M m.World (Unit {0})
  copy_of n = run_copy m src dst (sequential_chunks n full_copy_chunk_size) full_copy_config

  abbrev IsCopied : ℕ → m.World → m.World → Type 0
  IsCopied i w w' = (m.disk dst w' i ≡ m.disk src w i) × (m.disk src w' i ≡ m.disk src w i)

  copy_of-IsCopied :
      (size i : ℕ) (w : m.World)
      → size + 4095 < u64_mod
      → i < size
      → HonestCopy m src dst full_copy_config (sequential_chunks size full_copy_chunk_size)
      → (copy_of size w).0 ≡ ok tt
      → IsCopied i w (copy_of size w).1
  copy_of-IsCopied size i w fits inside honest e =
      let chunks = sequential_chunks size full_copy_chunk_size in
      let within : i < align_up size = omega (arith, align_up_lem size fits) in
      let exact =
        run_copy_exact m src dst pair full_copy_config chunks (omega arith) (omega arith)
          (sequential_chunks-small size full_copy_chunk_size) honest w i e in
      (
        exact.0
            ∙ ap (λ b. if b then m.disk src w i else m.disk dst w i)
                (covers_aligned size full_copy_chunk_size i (omega arith)
                  ∙ lt→ltb i (align_up size) within),
        exact.1,
      )

  -- A full copy that succeeds leaves on the destination every byte of the source below the size that
  -- it returns, and it leaves these on the source as they were: for a size that can be rounded up
  -- within a u64, between two devices with contents of their own, whose kernel reads and writes as
  -- documented and answers operations in flight, in any order, where asking for a size changes nothing.
  pub full_copy_exact :
      (size i : ℕ) (w : m.World)
      → size + 4095 < u64_mod
      → i < size
      → HonestCopy m src dst full_copy_config (sequential_chunks size full_copy_chunk_size)
      → (full_copy m src dst w).0 ≡ ok size
      → let w' = (full_copy m src dst w).1 in
        (m.disk dst w' i ≡ m.disk src w i) × (m.disk src w' i ≡ m.disk src w i)
  unfolding full_copy
  full_copy_exact size i w fits inside honest e =
      let (found, sized, rest, last) =
        bind_ok (get_size m src) (λ size. copy_of size >> pure size) w size e in
      let w1 = (get_size m src w).1 in
      let (u, copied, returned, last') = seq_ok (copy_of found) (pure found) w1 size rest in
      let same : found ≡ size = cc in
      let whole = last ∙ last' in
      let start = ap (λ b. b i) (get_size-disk m src keeps src found w sized) in
      let (there, here) =
        subst (λ n. IsCopied i w1 (copy_of n w1).1) (sym same)
          (copy_of-IsCopied size i w1 fits inside honest
            (subst (λ n. (copy_of n w1).0 ≡ ok tt) same copied)) in
      (
        ap (λ v. m.disk dst v i) whole ∙ there ∙ start,
        ap (λ v. m.disk src v i) whole ∙ here ∙ start,
      )

  -- The size that is returned is that of the source.
  pub get_size-full_copy :
      (size : ℕ) (w : m.World)
      → (full_copy m src dst w).0 ≡ ok size
      → (get_size m src w).0 ≡ ok size
  unfolding full_copy
  get_size-full_copy size w e =
      let (found, sized, rest, last) =
        bind_ok (get_size m src) (λ size. copy_of size >> pure size) w size e in
      let w1 = (get_size m src w).1 in
      let (u, copied, returned, last') = seq_ok (copy_of found) (pure found) w1 size rest in
      let same : found ≡ size = cc in sized ∙ ap ok same
