-- ===== src/Session/Golden.antt =====
-- The golden image: the virgin volume, over any series of the everyday commands.
use schelk.Base.{◌≡◌, refl, sym, ◌∙◌, subst, Bool, false, List, [], ◌∷◌, Option, some, All}
use schelk.Base.Text.{str_eq}
use schelk.Machine.{Machine, FilePath, AppState}
use schelk.Cli.{
  Command, init_new, init_from, full_recover, mount, recover, restore, promote, status, run_command,
}
use schelk.Session.Stored.{StateFile, stored}
use schelk.Session.Main.{run_session}
use schelk.Session.Written.{written, IsSteady}
use schelk.Session.Frame.{run_command-Spares}
use schelk.Session.Everyday.{IsEveryday, SameDevices, Serves, run_command-Serves}

module _ (m : Machine) (f : StateFile m) (s : AppState) (steady : IsSteady m s.virgin)
    (scratch_apart : str_eq s.scratch s.virgin ≡ false)
    (ramdisk_apart : str_eq s.ramdisk s.virgin ≡ false) where
  elsewhere : (p q : FilePath) → q ≡ p → str_eq p s.virgin ≡ false → str_eq q s.virgin ≡ false
  elsewhere p q e h = subst (λ r. str_eq r s.virgin ≡ false) (sym e) h

  spares_state :
      (command : Command) (t : AppState)
      → IsEveryday command
      → SameDevices s t
      → All (λ q. str_eq q s.virgin ≡ false) (written command (some t))
  spares_state full_recover t every d = (elsewhere s.scratch t.scratch d.scratch scratch_apart, tt)
  spares_state mount t every d = (elsewhere s.ramdisk t.ramdisk d.ramdisk ramdisk_apart, tt)
  spares_state (recover kill) t every d =
      (elsewhere s.scratch t.scratch d.scratch scratch_apart, tt)
  spares_state (restore kill) t every d = (
    elsewhere s.scratch t.scratch d.scratch scratch_apart,
    (elsewhere s.ramdisk t.ramdisk d.ramdisk ramdisk_apart, tt),
  )
  spares_state status t every d = tt
  spares_state (init_new args) t every d = absurd every
  spares_state (init_from args fstype no_copy) t every d = absurd every
  spares_state (promote kill) t every d = absurd every

  spares :
      (command : Command) (o : Option AppState)
      → IsEveryday command
      → Serves s o
      → All (λ q. str_eq q s.virgin ≡ false) (written command o)
  spares command o every (t, there, d) =
      subst (λ x. All (λ q. str_eq q s.virgin ≡ false) (written command x)) (sym there)
        (spares_state command t every d)

  pub run_command-golden :
      (skip : Bool) (command : Command) (w : m.World)
      → IsEveryday command
      → Serves s (stored m f w)
      → m.disk s.virgin (run_command m skip command w).1 ≡ m.disk s.virgin w
  run_command-golden skip command w every k =
      run_command-Spares m f s.virgin steady skip command w (spares command (stored m f w) every k)

  -- Whatever commands but `init-new`, `init-from` and `promote` are run on a stored state, and wherever
  -- they fail: the virgin volume keeps its contents. It is another device than the scratch volume and the
  -- RAM disk, and is changed by no call but those that write it, and the calls are as `StateFile` says.
  pub run_session-golden :
      (commands : List (Bool × Command)) (w : m.World)
      → All (λ c. IsEveryday c.1) commands
      → Serves s (stored m f w)
      → m.disk s.virgin (run_session m commands w) ≡ m.disk s.virgin w
  run_session-golden [] w every k = refl
  run_session-golden ((skip, command) ∷ commands) w (here, rest) k =
      run_session-golden commands (run_command m skip command w).1 rest
        (run_command-Serves m f s skip command w here k)
      ∙ run_command-golden skip command w here k
