-- ===== src/Session/PowerLoss.antt =====
-- A power loss, as it may hit the state file that `save` of src/state.rs writes. It may undo calls that
-- have returned, where no fsync has made them durable.
use schelk.Base.{ℕ, ◌≡◌, refl, sym, subst, ◌⊎◌, inl, inr, Bool, true, List, [], ◌∷◌, Option, ok}
use schelk.Error.{os_error}
use schelk.Machine.{Machine, AppState, read}
use schelk.Effect.{M, ◌>>◌, check}
use schelk.State.{save, temp_path}
use schelk.Session.Stored.{StateFile}

module _ {W : Type 0} where
  -- Calls of the machine in their order, up to the first that fails.
  abbrev pub run_calls : List (W → Bool × W) → M W (Unit {0})
  run_calls [] = λ w. (ok tt, w)
  run_calls (call ∷ []) = check call os_error
  run_calls (call ∷ next ∷ calls) = check call os_error >> run_calls (next ∷ calls)

  -- The world is one before, between or after the calls that are made.
  abbrev pub Passes : List (W → Bool × W) → W → W → Type 0
  Passes [] w v = v ≡ w
  Passes (call ∷ calls) w v =
      (v ≡ w) ⊎ (v ≡ (call w).1) ⊎ (((call w).0 ≡ true) × Passes calls (call w).1 v)

  pub passes_step :
      (P : W → Type 0) (call : W → Bool × W) (calls : List (W → Bool × W)) (w : W)
      → P w
      → P (call w).1
      → ((call w).0 ≡ true → (v : W) → Passes calls (call w).1 v → P v)
      → (v : W) → Passes (call ∷ calls) w v
      → P v
  passes_step P call calls w before after rest v (inl e) = subst P (sym e) before
  passes_step P call calls w before after rest v (inr (inl e)) = subst P (sym e) after
  passes_step P call calls w before after rest v (inr (inr (made, h))) = rest made v h

-- What a power loss may leave (`left`) of the state file; of the contents of the file that its path
-- names now (`target`); and of those of the temporary file (`copy`). An fsync makes the contents of
-- the temporary file durable. A rename that is not durable may be undone; an fsync of the directory
-- makes it so.
pub record PowerLoss (m : Machine) (f : StateFile m) : Type 1 where
  pub loss : m.World → m.World → Type 0
  pub left : m.World → Option (List ℕ) → Type 0
  pub target : m.World → Option (List ℕ) → Type 0
  pub copy : m.World → Option (List ℕ) → Type 0
  pub loss_left : (w after : m.World) → loss w after → left w (f.file after)
  pub mkdir_left :
      (w : m.World) (c : Option (List ℕ)) → left (m.create_dir_all m.state_dir w).1 c → left w c
  pub create_left :
      (w : m.World) (c : Option (List ℕ)) → left (m.create (temp_path m) w).1 c → left w c
  pub write_left :
      (bytes : List ℕ) (w : m.World) (c : Option (List ℕ))
      → left (m.write_all (temp_path m) bytes w).1 c
      → left w c
  pub sync_left :
      (w : m.World) (c : Option (List ℕ)) → left (m.sync_all (temp_path m) w).1 c → left w c
  pub synced :
      (w : m.World) (c : Option (List ℕ))
      → (m.sync_all (temp_path m) w).0 ≡ true
      → copy (m.sync_all (temp_path m) w).1 c
      → c ≡ f.temp w
  pub rename_left :
      (w : m.World) (c : Option (List ℕ))
      → left (m.rename (temp_path m) m.state_path w).1 c
      → left w c ⊎ copy w c
  pub rename_target :
      (w : m.World) (c : Option (List ℕ))
      → (m.rename (temp_path m) m.state_path w).0 ≡ true
      → target (m.rename (temp_path m) m.state_path w).1 c
      → copy w c
  pub open_left :
      (w : m.World) (c : Option (List ℕ)) → left (m.open_as read m.state_dir w).1 c → left w c
  pub open_target :
      (w : m.World) (c : Option (List ℕ)) → target (m.open_as read m.state_dir w).1 c → target w c
  pub dir_left :
      (w : m.World) (c : Option (List ℕ)) → left (m.sync_all m.state_dir w).1 c → left w c
  pub dir_synced :
      (w : m.World) (c : Option (List ℕ))
      → (m.sync_all m.state_dir w).0 ≡ true
      → left (m.sync_all m.state_dir w).1 c
      → target w c

module _ (m : Machine) (state : AppState) where
  -- The calls of `save`.
  abbrev pub save_calls : List (m.World → Bool × m.World)
  save_calls =
      m.create_dir_all m.state_dir
      ∷ m.create (temp_path m)
      ∷ m.write_all (temp_path m) (m.to_json state)
      ∷ m.sync_all (temp_path m)
      ∷ m.rename (temp_path m) m.state_path
      ∷ m.open_as read m.state_dir
      ∷ m.sync_all m.state_dir
      ∷ []

  -- A world that `save` passes through.
  abbrev pub Midway : m.World → m.World → Type 0
  Midway w v = Passes save_calls w v

  pub run_calls-save : (w : m.World) → run_calls save_calls w ≡ save m state w
  unfolding save
  run_calls-save w = refl
