-- ===== src/State/Loaded.antt =====
-- How the commands of src/commands begin: the check for root, the lock, and the stored state.
use schelk.Base.{◌≡◌, sym, ap, ◌∙◌, Option, some, ok}
use schelk.Error.{not_initialized}
use schelk.Machine.{Machine, AppState}
use schelk.Effect.{M, given, ◌>>=◌, ◌>>◌}
use schelk.Effect.Laws.{bind_ok, seq_ok, given_ok}
use schelk.Env.{require_root}
use schelk.State.{load, lock}

-- The world in which the state is loaded.
abbrev pub before_load : (m : Machine) → m.World → m.World
before_load m w = (lock m (require_root m w).1).1

abbrev pub with_state :
    (m : Machine) → (AppState → M m.World (Unit {0})) → Option AppState → M m.World (Unit {0})
with_state m rest loaded = (λ w. (given loaded not_initialized, w)) >>= rest

module _ (m : Machine) (rest : AppState → M m.World (Unit {0})) (state : AppState) where
  -- Such a command ends as its rest does from the loaded state.
  pub loaded_lem :
      (w : m.World)
      → (load m (before_load m w)).0 ≡ ok (some state)
      → ((require_root m >> (lock m >> (load m >>= with_state m rest))) w).0 ≡ ok tt
      → let w1 = (load m (before_load m w)).1 in
        ((rest state w1).0 ≡ ok tt)
        × (((require_root m >> (lock m >> (load m >>= with_state m rest))) w).1 ≡ (rest state w1).1)
  loaded_lem w loads e =
      let finish = with_state m rest in
      let (u, root, rest0, last) = seq_ok (require_root m) (lock m >> (load m >>= finish)) w tt e in
      let v = (require_root m w).1 in
      let (u1, locked, rest1, last1) = seq_ok (lock m) (load m >>= finish) v tt rest0 in
      let w0 = before_load m w in
      let (loaded, found, rest2, last2) = bind_ok (load m) finish w0 tt rest1 in
      let w1 = (load m w0).1 in
      let pass : M m.World AppState = λ w. (given loaded not_initialized, w) in
      let (s, passed, rest3, last3) = bind_ok pass rest w1 tt rest2 in
      let there : loaded ≡ some s = given_ok loaded not_initialized s passed in
      let same : s ≡ state = cc in
      (
        sym (ap (λ t. (rest t w1).0) same) ∙ rest3,
        last ∙ last1 ∙ last2 ∙ last3 ∙ ap (λ t. (rest t w1).1) same,
      )
