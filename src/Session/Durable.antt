-- ===== src/Session/Durable.antt =====
-- What a power loss leaves of the state file that `save` of src/state.rs writes.
use schelk.Base.{ℕ, ◌≡◌, sym, ap, subst, ◌∙◌, ◌⊎◌, inl, inr, List, [], ◌∷◌, Option, some, ok}
use schelk.Error.{os_error}
use schelk.Machine.{Machine, AppState, read}
use schelk.Effect.{◌>>◌, check}
use schelk.Effect.Laws.{seq_ok, passed_ok}
use schelk.State.{load, save, temp_path}
use schelk.Session.Stored.{StateFile, parsed, load_stored}
use schelk.Session.PowerLoss.{
  run_calls, Passes, passes_step, PowerLoss, save_calls, Midway, run_calls-save,
}

module _ (m : Machine) (f : StateFile m) (p : PowerLoss m f) (state : AppState) where
  -- What a power loss may leave is among the old, or new.
  abbrev Safe : (Option (List ℕ) → Type 0) → m.World → Type 0
  Safe Old v = (c : Option (List ℕ)) → p.left v c → Old c ⊎ (c ≡ some (m.to_json state))

  -- From the rename on, with a durable copy.
  flush-Safe :
      (Old : Option (List ℕ) → Type 0) (w : m.World)
      → Safe Old w
      → (v : m.World) → Passes (m.open_as read m.state_dir ∷ m.sync_all m.state_dir ∷ []) w v
      → Safe Old v
  flush-Safe Old w h =
      let w1 = (m.open_as read m.state_dir w).1 in
      let opened : Safe Old w1 = λ c l. h c (p.open_left w c l) in
      let flushed : Safe Old (m.sync_all m.state_dir w1).1 = λ c l. opened c (p.dir_left w1 c l) in
      passes_step (Safe Old) (m.open_as read m.state_dir) (m.sync_all m.state_dir ∷ []) w h opened
        λ _.
          passes_step (Safe Old) (m.sync_all m.state_dir) [] w1 opened flushed
            λ _ v e. subst (Safe Old) (sym e) flushed

  save_calls-Safe : (w v : m.World) → Midway m state w v → Safe (p.left w) v
  save_calls-Safe w v h =
      let Old = p.left w in
      let bytes = m.to_json state in
      let temp = temp_path m in
      let flush = m.open_as read m.state_dir ∷ m.sync_all m.state_dir ∷ [] in
      let move = m.rename temp m.state_path ∷ flush in
      let sync = m.sync_all temp ∷ move in
      let write = m.write_all temp bytes ∷ sync in
      let start = m.create temp ∷ write in
      let w1 = (m.create_dir_all m.state_dir w).1 in
      let w2 = (m.create temp w1).1 in
      let w3 = (m.write_all temp bytes w2).1 in
      let w4 = (m.sync_all temp w3).1 in
      let w5 = (m.rename temp m.state_path w4).1 in
      let kept : (u : m.World) → ((c : Option (List ℕ)) → p.left u c → Old c) → Safe Old u =
        λ u k c l. inl (k c l) in
      let old1 : (c : Option (List ℕ)) → p.left w1 c → Old c = p.mkdir_left w in
      let old2 : (c : Option (List ℕ)) → p.left w2 c → Old c =
        λ c l. old1 c (p.create_left w1 c l) in
      let old3 : (c : Option (List ℕ)) → p.left w3 c → Old c =
        λ c l. old2 c (p.write_left bytes w2 c l) in
      let old4 : (c : Option (List ℕ)) → p.left w4 c → Old c = λ c l. old3 c (p.sync_left w3 c l) in
      passes_step (Safe Old) (m.create_dir_all m.state_dir) start w (kept w (λ c l. l))
        (kept w1 old1)
        (λ _.
          passes_step (Safe Old) (m.create temp) write w1 (kept w1 old1) (kept w2 old2) λ created.
            passes_step (Safe Old) (m.write_all temp bytes) sync w2 (kept w2 old2) (kept w3 old3)
              λ written.
                passes_step (Safe Old) (m.sync_all temp) move w3 (kept w3 old3) (kept w4 old4)
                  λ synced.
                    let full : f.temp w3 ≡ some bytes = f.write_all bytes w1 created written in
                    let moved : Safe Old w5 = λ c l. elim (p.rename_left w4 c l) [
                      | inl kept_name ↦ inl (old4 c kept_name)
                      | inr copied ↦ inr (p.synced w3 c synced copied ∙ full)
                    ] in
                    passes_step (Safe Old) (m.rename temp m.state_path) flush w4 (kept w4 old4)
                      moved λ _. flush-Safe Old w5 moved)
        v h

  -- The calls of `save` are those of `save_calls`, and if the power is lost before, between or after
  -- any of them, a `load` that succeeds after that gives the new state, or what it reads in contents
  -- that a power loss before the save might have left; where the calls and the loss behave as
  -- `StateFile` and `PowerLoss` say.
  pub load-save_interrupted :
      (o : Option AppState) (w v after : m.World)
      → Midway m state w v
      → p.loss v after
      → (load m after).0 ≡ ok o
      → (run_calls (save_calls m state) w ≡ save m state w)
        × ((o ≡ some state) ⊎ ((c : Option (List ℕ)) × p.left w c × (parsed m f c ≡ o)))
  load-save_interrupted o w v after h lost loaded =
      let found : parsed m f (f.file after) ≡ o = load_stored m f o after loaded in
      (
        run_calls-save m state w,
        elim (save_calls-Safe w v h (f.file after) (p.loss_left v after lost)) [
          | inl old ↦ inr (f.file after, old, found)
          | inr new ↦ inl (sym found ∙ ap (parsed m f) new ∙ f.codec state)
        ],
      )

  -- After a successful `save`, a power loss leaves the new contents.
  save_left :
      (w : m.World) (c : Option (List ℕ))
      → (save m state w).0 ≡ ok tt
      → p.left (save m state w).1 c
      → c ≡ some (m.to_json state)
  unfolding save
  save_left w c saved l =
      let bytes = m.to_json state in
      let temp = temp_path m in
      let flush =
        check (m.open_as read m.state_dir) os_error >> check (m.sync_all m.state_dir) os_error in
      let move = check (m.rename temp m.state_path) os_error >> flush in
      let sync = check (m.sync_all temp) os_error >> move in
      let write = check (m.write_all temp bytes) os_error >> sync in
      let start = check (m.create temp) os_error >> write in
      let w1 = (m.create_dir_all m.state_dir w).1 in
      let w2 = (m.create temp w1).1 in
      let w3 = (m.write_all temp bytes w2).1 in
      let w4 = (m.sync_all temp w3).1 in
      let w5 = (m.rename temp m.state_path w4).1 in
      let w6 = (m.open_as read m.state_dir w5).1 in
      let (u1, e1, r1, l1) =
        seq_ok (check (m.create_dir_all m.state_dir) os_error) start w tt saved in
      let (u2, e2, r2, l2) = seq_ok (check (m.create temp) os_error) write w1 tt r1 in
      let (u3, e3, r3, l3) = seq_ok (check (m.write_all temp bytes) os_error) sync w2 tt r2 in
      let (u4, e4, r4, l4) = seq_ok (check (m.sync_all temp) os_error) move w3 tt r3 in
      let (u5, e5, r5, l5) = seq_ok (check (m.rename temp m.state_path) os_error) flush w4 tt r4 in
      let (u6, e6, r6, l6) =
        seq_ok (check (m.open_as read m.state_dir) os_error)
          (check (m.sync_all m.state_dir) os_error) w5 tt r5 in
      let last = (m.sync_all m.state_dir w6).1 in
      let ends : (save m state w).1 ≡ last = l1 ∙ l2 ∙ l3 ∙ l4 ∙ l5 ∙ l6 in
      let l' : p.left last c = subst (λ v. p.left v c) ends l in
      let named = p.dir_synced w6 c (passed_ok (m.sync_all m.state_dir w6).0 os_error r6) l' in
      let moved =
        p.rename_target w4 c (passed_ok (m.rename temp m.state_path w4).0 os_error e5)
          (p.open_target w5 c named) in
      p.synced w3 c (passed_ok (m.sync_all temp w3).0 os_error e4) moved
      ∙ f.write_all bytes w1 (passed_ok (m.create temp w1).0 os_error e2)
          (passed_ok (m.write_all temp bytes w2).0 os_error e3)

  -- If the power is lost after a `save` has succeeded, a `load` that succeeds after that gives the
  -- state that was saved; where the calls and the loss behave as `StateFile` and `PowerLoss` say.
  pub load-save_durable :
      (o : Option AppState) (w after : m.World)
      → (save m state w).0 ≡ ok tt
      → p.loss (save m state w).1 after
      → (load m after).0 ≡ ok o
      → o ≡ some state
  load-save_durable o w after saved lost loaded =
      let contents = save_left w (f.file after) saved (p.loss_left (save m state w).1 after lost) in
      sym (load_stored m f o after loaded) ∙ ap (parsed m f) contents ∙ f.codec state
