-- ===== src/Io/Volume/Zero.antt =====
-- The loop of `zero` in src/io/mod.rs.
use schelk.Base.{
  ℕ, zero, suc, ◌+◌, ◌-◌, ◌≤◌, ◌<◌, ◌≡◌, ap, ◌∙◌, true, ◌&&◌, ltb, leb, if◌then◌else◌, arith, min,
  Bool-cases, inl, inr, ◌*◌, ltb→lt, ok,
}
use schelk.Error.{os_error}
use schelk.Machine.{Machine, FilePath}
use schelk.Effect.{check}
use schelk.Effect.Laws.{seq_ok, passed_ok}
use schelk.Io.Volume.{zero_loop}

-- A write of zeros that succeeds has stored them in its range, and nothing elsewhere.
pub record WritesZeros (m : Machine) (path : FilePath) : Type 0 where
  pub stored :
      (offset len i : ℕ) (w : m.World)
      → (m.write_zeros path offset len w).0 ≡ true
      → m.disk path (m.write_zeros path offset len w).1 i
        ≡ (if leb offset i && ltb i (offset + len) then 0 else m.disk path w i)

-- A write from an offset, and the writes from where it ends.
joined :
    (from step size i old new end : ℕ)
    → from < size
    → step ≤ size - from
    → new ≡ (if leb from i && ltb i (from + step) then 0 else old)
    → end ≡ (if leb (from + step) i && ltb i size then 0 else new)
    → end ≡ (if leb from i && ltb i size then 0 else old)
joined from step size i old new end h k e f = ground arith

module _ (m : Machine) (path : FilePath) (writes : WritesZeros m path) where
  -- If the loop succeeds, every byte from the start offset to the size is zero, and every other byte
  -- has its old value: for fuel that is at least the number of bytes to write, on a device where a
  -- write of zeros that succeeds changes its own range and nothing else.
  pub zero_loop-lem :
      (fuel size written i : ℕ) (w : m.World)
      → size ≤ written + fuel
      → (zero_loop m fuel path size written w).0 ≡ ok tt
      → m.disk path (zero_loop m fuel path size written w).1 i
        ≡ (if leb written i && ltb i size then 0 else m.disk path w i)
  unfolding zero_loop
  zero_loop-lem zero size written i w f e = ground arith
  zero_loop-lem (suc fuel) size written i w f e = elim (Bool-cases (ltb written size)) [
    | inr ge ↦ rw (zero_loop, ge) (ground arith)
    | inl lt ↦
        let n = min (1024 * 1024) (size - written) in
        let (u, first, second, last) =
          seq_ok (check (m.write_zeros path written n) os_error)
            (zero_loop m fuel path size (written + n)) w tt (rw (zero_loop, lt) at e) in
        let w' = (m.write_zeros path written n w).1 in
        rw (zero_loop, lt)
          (joined written n size i (m.disk path w i) (m.disk path w' i) _ (ltb→lt written size lt)
            (omega arith)
            (writes.stored written n i w
              (passed_ok (m.write_zeros path written n w).0 os_error first))
            (ap (λ v. m.disk path v i) last
              ∙ zero_loop-lem fuel size (written + n) i w' (omega (arith, ltb→lt written size lt))
                  second))
  ]
