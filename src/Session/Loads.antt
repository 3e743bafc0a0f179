-- ===== src/Session/Loads.antt =====
-- The state that a command of src/commands loads, and the one that is stored.
use schelk.Base.{◌≡◌, sym, ap, ◌∙◌, some, ok}
use schelk.Machine.{Machine, AppState}
use schelk.Effect.{M, ◌>>=◌, ◌>>◌}
use schelk.Effect.Laws.{bind_ok, seq_ok}
use schelk.Env.{require_root}
use schelk.State.{load, lock}
use schelk.State.Loaded.{before_load, with_state}
use schelk.Session.Apart.{require_root-Keeps, lock-Keeps}
use schelk.Session.Stored.{StateFile, parsed, stored, load_stored}

module _ (m : Machine) (f : StateFile m) (rest : AppState → M m.World (Unit {0})) where
  before_load-stored : (w : m.World) → stored m f (before_load m w) ≡ stored m f w
  before_load-stored w = ap (parsed m f) (
      (lock-Keeps m f.file f.apart).at (require_root m w).1
      ∙ (require_root-Keeps m f.file f.apart).at w)

  pub run_loads :
      (w : m.World) (s : AppState)
      → stored m f w ≡ some s
      → ((require_root m >> (lock m >> (load m >>= with_state m rest))) w).0 ≡ ok tt
      → (load m (before_load m w)).0 ≡ ok (some s)
  run_loads w s was e =
      let finish = with_state m rest in
      let (u, root, rest0, last) = seq_ok (require_root m) (lock m >> (load m >>= finish)) w tt e in
      let v = (require_root m w).1 in
      let (u1, locked, rest1, last1) = seq_ok (lock m) (load m >>= finish) v tt rest0 in
      let w0 = before_load m w in
      let (loaded, found, rest2, last2) = bind_ok (load m) finish w0 tt rest1 in
      found ∙ ap ok (sym (load_stored m f loaded w0 found) ∙ before_load-stored w ∙ was)
