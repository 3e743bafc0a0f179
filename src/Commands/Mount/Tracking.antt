-- ===== src/Commands/Mount/Tracking.antt =====
-- What `schelk mount` leaves behind when it fails, and what it has checked when it succeeds.
use schelk.Base.{ℕ, ◌≡◌, refl, ap, ◌∙◌, ◌⊎◌, inl, inr, true, Result, ok, err, List, [], ◌∷◌, arith}
use schelk.Error.{Error, volume_mismatch}
use schelk.Machine.{Machine, AppState}
use schelk.Effect.{M, ◌>>=◌, ◌>>◌, attempt, or_cleanup, recovered, continue, ensure}
use schelk.Effect.Laws.{bind_ok, seq_ok, passed_ok}
use schelk.Dmera
use schelk.Io.Volume.{hash_superblock}
use schelk.Mount.{mount}
use schelk.Text.{codes_eq}
use schelk.Commands.Mount.{start_tracking, check_superblocks}

module _ {W : Type 0} (cleanup : M W (Unit {0})) where
  -- The cleanup was the last thing to happen.
  abbrev Cleaned : W → Type 0
  Cleaned w = (w' : W) × (w ≡ (cleanup w').1)

  last-Cleaned :
      {A : Type 0} (x : Result Error A × W) (e : Error)
      → (recovered cleanup x).0 ≡ err e
      → Cleaned (recovered cleanup x).1
  last-Cleaned (ok a, w) e h = absurd (cc)
  last-Cleaned (err f, w) e h = (w, refl)

  first-Cleaned :
      {A B : Type 0} (x : Result Error A × W) (d : M W B) (e : Error)
      → (continue (λ _. d) (recovered cleanup x)).0 ≡ err e
      → ((w : W) → (d w).0 ≡ err e → Cleaned (d w).1)
      → Cleaned (continue (λ _. d) (recovered cleanup x)).1
  first-Cleaned (ok a, w) d e h k = k w h
  first-Cleaned (err f, w) d e h k = (w, refl)

relabel :
    {A B : Type 0} (f e : Error)
    → ◌≡◌ {A = Result Error B} (err f) (err e)
    → ◌≡◌ {A = Result Error A} (err f) (err e)
relabel f e h = let same : f ≡ e = cc in ap err same

either_failed :
    {W A B : Type 0} (x : Result Error A × W) (d : M W B) (e : Error) (P : W → Type 0)
    → (continue (λ _. d) x).0 ≡ err e
    → ((w : W) → (d w).0 ≡ err e → P (d w).1)
    → ((x.0 ≡ err e) × ((continue (λ _. d) x).1 ≡ x.1)) ⊎ P (continue (λ _. d) x).1
either_failed (ok a, w) d e P h k = inr (k w h)
either_failed (err f, w) d e P h k = inl (relabel f e h, refl)

codes_eq_sound : (s t : List ℕ) → codes_eq s t ≡ true → s ≡ t
codes_eq_sound [] [] h = refl
codes_eq_sound [] (b ∷ t) h = absurd (cc)
codes_eq_sound (a ∷ s) [] h = absurd (cc)
codes_eq_sound (a ∷ s) (b ∷ t) h =
    let rest = codes_eq_sound s t (ground arith) in let same : a ≡ b = ground arith in cc

module _ (m : Machine) (state : AppState) where
  -- If era tracking is not started, then the device was not created, and nothing was done but the
  -- call to create it, or the last thing that was done was the call to remove it.
  pub start_tracking-removes :
      (scratch_size : ℕ) (w : m.World) (e : Error)
      → (start_tracking m state scratch_size w).0 ≡ err e
      → let create =
          Dmera.create m state.dm_era_name state.ramdisk state.scratch scratch_size
            state.granularity in
        let w' = (start_tracking m state scratch_size w).1 in
        (((create w).0 ≡ err e) × (w' ≡ (create w).1))
        ⊎ ((before : m.World) × (w' ≡ (Dmera.remove m state.dm_era_name before).1))
  unfolding start_tracking
  start_tracking-removes scratch_size w e h =
      let create =
        Dmera.create m state.dm_era_name state.ramdisk state.scratch scratch_size
          state.granularity in
      let cleanup = attempt (Dmera.remove m state.dm_era_name) in
      let checkpoint = Dmera.checkpoint m state.dm_era_name in
      let mounted =
        mount m (Dmera.device_path state.dm_era_name) state.mount_point state.fstype
          state.mount_options in
      either_failed (create w) (or_cleanup checkpoint cleanup >> or_cleanup mounted cleanup) e
        (Cleaned cleanup) h
        (λ w1 h1.
          first-Cleaned cleanup (checkpoint w1) (or_cleanup mounted cleanup) e h1
            (λ w2 h2. last-Cleaned cleanup (mounted w2) e h2))

  -- The check of the superblocks passes only if the hash of each, as read, is the one of the state.
  pub check_superblocks_sound :
      (w : m.World)
      → (check_superblocks m state w).0 ≡ ok tt
      → ((hash_superblock m state.virgin w).0 ≡ ok state.virgin_superblock_hash)
        × ((hash_superblock m state.scratch (hash_superblock m state.virgin w).1).0
            ≡ ok state.virgin_superblock_hash)
  unfolding check_superblocks
  check_superblocks_sound w h =
      let stored = state.virgin_superblock_hash in
      let virgin = hash_superblock m state.virgin in
      let scratch = hash_superblock m state.scratch in
      let compare =
        λ (hash : List ℕ). ensure {W = m.World} (codes_eq hash stored) volume_mismatch in
      let (hv, read_virgin, rest, last) =
        bind_ok virgin (λ hash. compare hash >> (scratch >>= compare)) w tt h in
      let w1 = (virgin w).1 in
      let (u, same_virgin, rest2, last2) = seq_ok (compare hv) (scratch >>= compare) w1 tt rest in
      let (hs, read_scratch, same_scratch, last3) = bind_ok scratch compare w1 tt rest2 in
      (
        read_virgin
            ∙ ap ok (
                codes_eq_sound hv stored
                  (passed_ok (codes_eq hv stored) volume_mismatch same_virgin)),
        read_scratch
            ∙ ap ok (
                codes_eq_sound hs stored
                  (passed_ok (codes_eq hs stored) volume_mismatch same_scratch)),
      )
