-- ===== src/Session/Stored.antt =====
-- The state file, as `save` and `load` of src/state.rs write and read it.
use schelk.Base.{
  ℕ, ◌≡◌, refl, sym, ap, subst, ◌∙◌, Bool, true, false, inl, inr, List, Option, none, some, Result,
  ok,
}
use schelk.Error.{Error, os_error, corrupted_state}
use schelk.Machine.{Machine, FilePath, AppState, read}
use schelk.Effect.{M, pure, ◌>>=◌, ◌>>◌, ask, check, need, continue, passed, given}
use schelk.Effect.Laws.{bind_ok, seq_ok, given_ok, passed_ok}
use schelk.Effect.Keeps.{Keeps, keeps_rules}
use schelk.Effect.Outcome.{Outcome, Leads, continue-Outcome}
use schelk.State.{load, or_absent, save, temp_path}
use schelk.Session.Apart.{IsApart, IsUnwritten}

-- How the calls change the contents of the state file and of its temporary copy, none if there is no
-- such file: a copy that is created is empty, and is written in full if that succeeds; a rename that
-- succeeds puts it in the place of the state file at once, and one that fails does nothing. What is
-- written as JSON is read back.
pub record StateFile (m : Machine) : Type 0 where
  pub file : m.World → Option (List ℕ)
  pub temp : m.World → Option (List ℕ)
  pub apart : IsApart m file
  pub unwritten : (p : FilePath) → IsUnwritten m file p
  pub create_keeps : (w : m.World) → file (m.create (temp_path m) w).1 ≡ file w
  pub write_keeps :
      (bytes : List ℕ) (w : m.World) → file (m.write_all (temp_path m) bytes w).1 ≡ file w
  pub write_all :
      (bytes : List ℕ) (w : m.World)
      → (m.create (temp_path m) w).0 ≡ true
      → let w' = (m.create (temp_path m) w).1 in
        (m.write_all (temp_path m) bytes w').0 ≡ true
        → temp (m.write_all (temp_path m) bytes w').1 ≡ some bytes
  pub sync_keeps : (w : m.World) → temp (m.sync_all (temp_path m) w).1 ≡ temp w
  pub rename_moves :
      (w : m.World)
      → (m.rename (temp_path m) m.state_path w).0 ≡ true
      → file (m.rename (temp_path m) m.state_path w).1 ≡ temp w
  pub rename_fails :
      (w : m.World)
      → (m.rename (temp_path m) m.state_path w).0 ≡ false
      → file (m.rename (temp_path m) m.state_path w).1 ≡ file w
  pub reads :
      (bytes : List ℕ) (w : m.World)
      → (m.read_to_string m.state_path w).0 ≡ some bytes
      → file w ≡ some bytes
  pub exists : (w : m.World) → (m.exists_path m.state_path w).0 ≡ false → file w ≡ none
  pub codec : (state : AppState) → m.from_json (m.to_json state) ≡ some state

module _ (m : Machine) (f : StateFile m) where
  abbrev pub parsed : Option (List ℕ) → Option AppState
  parsed none = none
  parsed (some bytes) = m.from_json bytes

  -- The state that the program would load.
  abbrev pub stored : m.World → Option AppState
  stored w = parsed (f.file w)

  module _ (state : AppState) where
    -- The file holds the state.
    abbrev Holds : Option (List ℕ) → Type 0
    Holds contents = contents ≡ some (m.to_json state)

    abbrev Saved : Option (List ℕ) → Result Error (Unit {0}) × m.World → Type 0
    Saved old x = Outcome f.file old Holds x

    renamed-Saved :
        (old : Option (List ℕ)) (b : Bool) (w : m.World)
        → (b ≡ false → f.file w ≡ old)
        → (b ≡ true → Holds (f.file w))
        → Saved old (
            continue
              (λ (_ : Unit {0}).
                check (m.open_as read m.state_dir) os_error
                >> check (m.sync_all m.state_dir) os_error)
              (passed b os_error, w))
    renamed-Saved old false w h k = inl (h refl, (os_error, refl))
    renamed-Saved old true w h k =
        let flush : Keeps f.file (
            check (m.open_as read m.state_dir) os_error
            >> check (m.sync_all m.state_dir) os_error) =
          search (keeps_rules, f.apart.open_as, f.apart.sync_all) in
        inr (flush.at w ∙ k refl)

    -- The file and its copy, from a world in which the file is the old one.
    save_steps : (old : Option (List ℕ)) (w : m.World) → f.file w ≡ old → Saved old (save m state w)
    unfolding save
    save_steps old w same =
        let bytes = m.to_json state in
        let temp = temp_path m in
        let flush =
          check (m.open_as read m.state_dir) os_error >> check (m.sync_all m.state_dir) os_error in
        let move = check (m.rename temp m.state_path) os_error >> flush in
        let sync = check (m.sync_all temp) os_error >> move in
        let write = check (m.write_all temp bytes) os_error >> sync in
        let start = check (m.create temp) os_error >> write in
        let w1 = (m.create_dir_all m.state_dir w).1 in
        let w2 = (m.create temp w1).1 in
        let w3 = (m.write_all temp bytes w2).1 in
        let w4 = (m.sync_all temp w3).1 in
        let kept1 = (f.apart.create_dir_all m.state_dir).at w ∙ same in
        let kept2 = f.create_keeps w1 ∙ kept1 in
        let kept3 = f.write_keeps bytes w2 ∙ kept2 in
        let kept4 = (f.apart.sync_all temp).at w3 ∙ kept3 in
        continue-Outcome f.file old Holds (λ _. start)
          (check (m.create_dir_all m.state_dir) os_error w) kept1
          λ u1 e1.
            continue-Outcome f.file old Holds (λ _. write) (check (m.create temp) os_error w1) kept2
              λ u2 e2.
                continue-Outcome f.file old Holds (λ _. sync)
                  (check (m.write_all temp bytes) os_error w2) kept3
                  λ u3 e3.
                    continue-Outcome f.file old Holds (λ _. move)
                      (check (m.sync_all temp) os_error w3) kept4
                      λ u4 e4.
                        let created = passed_ok (m.create temp w1).0 os_error e2 in
                        let written = passed_ok (m.write_all temp bytes w2).0 os_error e3 in
                        renamed-Saved old (m.rename temp m.state_path w4).0
                          (m.rename temp m.state_path w4).1
                          (λ failed. f.rename_fails w4 failed ∙ kept4)
                          (λ moved.
                            f.rename_moves w4 moved
                            ∙ f.sync_keeps w3
                            ∙ f.write_all bytes w1 created written)

    -- Whatever call fails, the state file is the old one or the new one, and complete: `save` fails
    -- and leaves the file as it was, or the file holds the new state. The calls that are not about the state
    -- file are assumed to leave it as it is, and a rename to replace it at once or to do nothing.
    pub save-Saved : (w : m.World) → Outcome f.file (f.file w) Holds (save m state w)
    save-Saved w = save_steps (f.file w) w refl

    pub save-Leads :
        (old : Option (List ℕ)) (Q : Option (List ℕ) → Type 0)
        → Q (some (m.to_json state))
        → Leads f.file old Q (save m state)
    save-Leads old Q q = record {
      at = λ w same. elim (save_steps old w same) [
        | inl kept ↦ inl kept
        | inr holds ↦ inr (subst Q (sym holds) q)
      ];
    }

  abbrev lift : Result Error AppState → M m.World AppState
  lift r w = (r, w)

  found_stored :
      (found : Bool) (o : Option AppState) (w : m.World)
      → (found ≡ false → f.file w ≡ none)
      → (or_absent m found w).0 ≡ ok o
      → stored w ≡ o
  found_stored false o w absent e =
      let gone = absent refl in let same : none ≡ o = cc in ap parsed gone ∙ same
  found_stored true o w absent e =
      let contents = need (m.read_to_string m.state_path) os_error in
      let parse = λ (bytes : List ℕ). lift (given (m.from_json bytes) corrupted_state) in
      let wrap = λ (state : AppState). pure {W = m.World} (some state) in
      let open_it = check (m.open_as read m.state_path) os_error in
      let (u, opened, rest, last) =
        seq_ok open_it (contents >>= λ bytes. parse bytes >>= wrap) w o e in
      let w1 = (m.open_as read m.state_path w).1 in
      let (bytes, found, rest1, last1) =
        bind_ok contents (λ bytes. parse bytes >>= wrap) w1 o rest in
      let w2 = (m.read_to_string m.state_path w1).1 in
      let (state, parses, same, last2) = bind_ok (parse bytes) wrap w2 o rest1 in
      let there =
        f.reads bytes w1 (given_ok (m.read_to_string m.state_path w1).0 os_error bytes found) in
      let here = sym ((f.apart.open_as read m.state_path).at w) ∙ there in
      let decoded = given_ok (m.from_json bytes) corrupted_state state parses in
      let held : some state ≡ o = cc in ap parsed here ∙ decoded ∙ held

  -- If a state is loaded, it is the stored one; and if none is, there is none.
  pub load_stored : (o : Option AppState) (w : m.World) → (load m w).0 ≡ ok o → stored w ≡ o
  unfolding load
  load_stored o w e =
      let (found, asked, rest, last) =
        bind_ok (ask (m.exists_path m.state_path)) (or_absent m) w o e in
      let w1 = (m.exists_path m.state_path w).1 in
      let kept = (f.apart.exists_path m.state_path).at w in
      let given_here : (m.exists_path m.state_path w).0 ≡ found = cc in
      sym (ap parsed kept)
      ∙ found_stored found o w1 (λ gone. kept ∙ f.exists w (given_here ∙ gone)) rest

  -- After `save` has succeeded, a `load` that succeeds gives the state that was saved: where a rename
  -- puts the copy in the place of the state file, and what is written as JSON is read back.
  pub load-save :
      (state : AppState) (o : Option AppState) (w : m.World)
      → (save m state w).0 ≡ ok tt
      → (load m (save m state w).1).0 ≡ ok o
      → o ≡ some state
  load-save state o w saved loaded = elim (save-Saved state w) [
    | inl (kept, (error, fails)) ↦ absurd (cc)
    | inr holds ↦ sym (load_stored o (save m state w).1 loaded) ∙ ap parsed holds ∙ f.codec state
  ]
