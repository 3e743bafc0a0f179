-- ===== src/Session/Cycles.antt =====
-- Any number of cycles of a benchmark.
use schelk.Base.{
  ℕ, ◌≤◌, ◌<◌, ◌^◌, ◌≡◌, refl, sym, ap, subst, ◌∙◌, Bool, false, List, none, some, ok,
}
use schelk.Base.Text.{str_eq}
use schelk.Machine.{Machine, AppState}
use schelk.State.{load}
use schelk.State.Disks.{FilesKeep}
use schelk.State.Loaded.{before_load}
use schelk.Io.Chunks.{BlockRange, prepare_chunks}
use schelk.Io.Ring.{Bytes}
use schelk.Io.Volume.{blocks_copy_config}
use schelk.Io.Volume.Exact.{IsVolumePair, HonestCopy}
use schelk.Commands.Recover.Restores.{IsTracked, before_collect, after_collect}
use schelk.Commands.Recover.Reported.{Reports}
use schelk.Cli.{mount, recover, run_command}
use schelk.Session.Stored.{StateFile, parsed, stored}
use schelk.Session.Spec.{mounted}
use schelk.Session.Written.{IsSteady}
use schelk.Session.Everyday.{Serves, run_command-Serves}
use schelk.Session.Golden.{run_command-golden}
use schelk.Session.Cycle.{mount_recover_cycle}

module _ (m : Machine) (f : StateFile m) (s : AppState) where
  -- One cycle from a world to another: `schelk mount` succeeds, an experiment leaves the state file and the
  -- virgin volume as they are, and `schelk recover` succeeds. In between, era_invalidate prints a report of
  -- ranges outside of which the volumes are the same, and the kernel reads and writes as documented.
  pub record IsCycle (w w' : m.World) : Type 0 where
    pub skip : Bool
    pub kill : Bool
    pub after : m.World
    pub ranges : List BlockRange
    pub mounts : (run_command m skip mount w).0 ≡ ok tt
    pub quiet : f.file after ≡ f.file (run_command m skip mount w).1
    pub spared : m.disk s.virgin after ≡ m.disk s.virgin (run_command m skip mount w).1
    pub reports :
        Reports m
          (mounted s)
          ranges
          (before_collect m (mounted s) kill (load m (before_load m after)).1)
    pub tracked :
        IsTracked m
          (mounted s)
          ranges
          (after_collect m (mounted s) kill (load m (before_load m after)).1)
    pub honest :
        HonestCopy m s.virgin s.scratch
          (blocks_copy_config s.granularity)
          (prepare_chunks ranges s.granularity)
    pub recovers : (run_command m skip (recover kill) after).0 ≡ ok tt
    pub ends : w' ≡ (run_command m skip (recover kill) after).1

  pub data Cycles : m.World → m.World → Type 0 where
    done : {w : m.World} → Cycles w w
    again : {w v u : m.World} → IsCycle w v → Cycles v u → Cycles w u

  -- The state is stored, and both volumes have the contents of the image, the scratch volume up to
  -- the size.
  pub record IsReady (size : ℕ) (image : Bytes) (w : m.World) : Type 0 where
    pub there : stored m f w ≡ some s
    pub virgin : m.disk s.virgin w ≡ image
    pub scratch : (i : ℕ) → i < size → m.disk s.scratch w i ≡ image i

module _ (m : Machine) (f : StateFile m) (s : AppState) (steady : IsSteady m s.virgin)
    (scratch_apart : str_eq s.scratch s.virgin ≡ false)
    (ramdisk_apart : str_eq s.ramdisk s.virgin ≡ false) (pair : IsVolumePair m s.virgin s.scratch)
    (scratch_kept : FilesKeep m s.scratch) (positive : 0 < s.granularity)
    (small : s.granularity ≤ 2 ^ 30) (unset : s.current_era ≡ none) where
  cycle-IsReady :
      (size : ℕ) (image : Bytes) (w w' : m.World)
      → IsCycle m f s w w'
      → IsReady m f s size image w
      → IsReady m f s size image w'
  cycle-IsReady size image w w' c r =
      let w1 = (run_command m c.skip mount w).1 in
      let w2 = (run_command m c.skip (recover c.kill) c.after).1 in
      let serving : Serves s (stored m f w) =
        (s, r.there, record { virgin = refl; scratch = refl; ramdisk = refl }) in
      let mounted_serves = run_command-Serves m f s c.skip mount w tt serving in
      let after_serves = subst (Serves s) (sym (ap (parsed m f) c.quiet)) mounted_serves in
      let whole = λ (i : ℕ).
        mount_recover_cycle m f s pair steady.files scratch_kept positive small c.skip c.kill w
          c.after i c.ranges r.there unset c.mounts c.quiet c.reports c.tracked c.honest
          c.recovers in
      let image_kept : m.disk s.virgin w2 ≡ image =
        run_command-golden m f s steady scratch_apart ramdisk_apart c.skip (recover c.kill) c.after
          tt after_serves
        ∙ c.spared
        ∙ run_command-golden m f s steady scratch_apart ramdisk_apart c.skip mount w tt serving
        ∙ r.virgin in
      subst (IsReady m f s size image) (sym c.ends) (record {
        there = (whole 0).0;
        virgin = image_kept;
        scratch = λ i inside. (whole i).1 ∙ ap (λ b. b i) image_kept;
      })

  -- From a world in which a state is stored and both volumes have the contents of one image, the
  -- scratch volume up to a size, any number of cycles leads to such a world, with the same state, image
  -- and size. A cycle is a `mount` that succeeds, an experiment that leaves the state file and the
  -- virgin volume as they are, and a `recover` that succeeds, where era_invalidate prints a report of
  -- ranges outside of which the volumes are the same, and the kernel reads and writes as documented and
  -- answers operations in flight, in any order. The state has no era and a positive granularity up to a
  -- gibibyte, the virgin volume is another device than the scratch volume and the RAM disk and is
  -- changed by no call but those that write it, writing the state file changes neither volume, and the
  -- calls are as `StateFile` says.
  pub Cycles-IsReady :
      (size : ℕ) (image : Bytes) {w w' : m.World}
      → Cycles m f s w w'
      → IsReady m f s size image w
      → IsReady m f s size image w'
  Cycles-IsReady size image done r = r
  Cycles-IsReady size image (again {w} {v} c rest) r =
      Cycles-IsReady size image rest (cycle-IsReady size image w v c r)
