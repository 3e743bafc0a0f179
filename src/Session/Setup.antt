-- ===== src/Session/Setup.antt =====
-- src/commands/init_new.rs, init_from.rs and full_recover.rs against the state machine of a session.
use schelk.Base.{
  ℕ, ◌≡◌, refl, subst, Bool, true, false, not, ◌||◌, ◌%◌, ◌<◌, List, Option, some, if◌then◌else◌,
  ok, arith, Result,
}
use schelk.Base.Text.{String}
use schelk.Error.{Error, already_mounted}
use schelk.Machine.{Machine, AppState}
use schelk.Effect.{pure, ◌>>=◌, ◌>>◌, ensure}
use schelk.Effect.Laws.{bind_ok, seq_ok}
use schelk.Effect.Outcome.{leads_rules, after-Leads}
use schelk.Env.{require_root}
use schelk.State.{lock, save}
use schelk.Dmera
use schelk.Dmera.Name.{validate_name}
use schelk.Mount.{is_mounted}
use schelk.Commands.InitCommon.{
  InitArgs, initial_state, validate_granularity, reject_same_device, check_arguments, lift,
}
use schelk.Commands.InitNew
use schelk.Commands.InitFrom
use schelk.Commands.FullRecover
use schelk.Session.Apart.{require_root-Keeps, confirm-Keeps, lock-Keeps, require-Keeps}
use schelk.Session.Apart.Volumes.{
  hash_superblock-Keeps, mkfs_ext4-Keeps, full_copy-Keeps, validate_size-Keeps,
}
use schelk.Session.Apart.Steps.{
  validate_volumes-Keeps, clear_stale-Keeps, check_arguments-Keeps, confirm_reinitialize-Keeps,
  copy_unless-Keeps,
}
use schelk.Session.Stored.{StateFile, parsed}
use schelk.Session.Spec.{IsValid, unmounted, recovered, rehashed}
use schelk.Session.Runs.{Performs, save-Performs, load-Performs}
use schelk.Cli.{init_new, init_from, full_recover}

granularity_sound :
    (granularity : ℕ)
    → validate_granularity granularity ≡ ok tt
    → (0 < granularity) × (granularity % 512 ≡ 0)
unfolding validate_granularity
granularity_sound granularity e = (ground arith, ground arith)

module _ (m : Machine) (f : StateFile m) where
  open m use {World}

  -- If it goes on, then with the state that is not mounted.
  pub clear_stale_sound :
      (s new : AppState) (w : World)
      → (FullRecover.clear_stale m s w).0 ≡ ok new
      → recovered s ≡ new
  unfolding FullRecover.clear_stale
  clear_stale_sound s new w e = either s.is_mounted e
    where
      cleared : World → Result Error AppState × World
      cleared = Dmera.exists m s.dm_era_name >>= λ dm_era_exists.
          is_mounted m s.mount_point >>= λ fs_mounted.
          ensure (not (dm_era_exists || fs_mounted)) already_mounted >> pure (unmounted s)

      either :
          (b : Bool)
          → ((if b then cleared else pure s) w).0 ≡ ok new
          → (if b then unmounted s else s) ≡ new
      either true h =
          let (device, found, rest, last) = bind_ok (Dmera.exists m s.dm_era_name) _ w new h in
          let (there, listed, rest1, last1) = bind_ok (is_mounted m s.mount_point) _ _ new rest in
          let (u, free, same, last2) =
            seq_ok (ensure (not (device || there)) already_mounted) (pure (unmounted s)) _ new
              rest1 in
          cc
      either false h = cc

  full_recover_state-Performs :
      (skip : Bool) (old : Option (List ℕ)) (s : AppState)
      → parsed m f old ≡ some s
      → Performs m f full_recover old (FullRecover.full_recover_state m (recovered s) skip)
  unfolding FullRecover.full_recover_state
  full_recover_state-Performs skip old s was =
      let saved : (hash : List ℕ)
          → Performs m f full_recover old (save m (rehashed hash (recovered s))) =
        λ hash.
          save-Performs m f full_recover old (rehashed hash (recovered s)) (s, hash, was, refl) in
      search
        (
          leads_rules,
          validate_volumes-Keeps m f.file f.apart,
          confirm-Keeps m f.file f.apart,
          full_copy-Keeps m f.file f.apart,
          f.unwritten,
          hash_superblock-Keeps m f.file f.apart,
          saved,
        )
        depth 9

  pub full_recover-Performs :
      (skip : Bool) (old : Option (List ℕ)) → Performs m f full_recover old (FullRecover.run m skip)
  unfolding FullRecover.run
  full_recover-Performs skip old =
      let root = require_root-Keeps m f.file f.apart in
      let locked = lock-Keeps m f.file f.apart in
      let finish = λ (state : AppState). FullRecover.full_recover_state m state skip in
      let loaded =
        load-Performs m f full_recover old (λ s. FullRecover.clear_stale m s >>= finish)
          (λ s was.
            after-Leads (FullRecover.clear_stale m s) finish (clear_stale-Keeps m f.file f.apart s)
              (λ new w same e.
                subst (λ n. Performs m f full_recover old (finish n)) (clear_stale_sound s new w e)
                  (full_recover_state-Performs skip old s was))) in
      search leads_rules

  check_arguments_sound :
      (args : InitArgs) (w : World)
      → (check_arguments m args w).0 ≡ ok tt
      → IsValid args.granularity args.dm_era_name
  unfolding check_arguments
  check_arguments_sound args w e =
      let names = lift m (validate_name args.dm_era_name) in
      let devices = reject_same_device m args.virgin args.scratch >> names in
      let sizes = lift m (validate_granularity args.granularity) >> devices in
      let (u, root, rest, last) = seq_ok (require_root m) (lock m >> sizes) w tt e in
      let (u1, locked, rest1, last1) = seq_ok (lock m) sizes _ tt rest in
      let (u2, sized, rest2, last2) =
        seq_ok (lift m (validate_granularity args.granularity)) devices _ tt rest1 in
      let (u3, apart, named, last3) =
        seq_ok (reject_same_device m args.virgin args.scratch) names _ tt rest2 in
      let (positive, aligned) = granularity_sound args.granularity sized in
      record { positive = positive; aligned = aligned; named = named }

  pub init_new-Performs :
      (args : InitArgs) (skip : Bool) (old : Option (List ℕ))
      → Performs m f (init_new args) old (InitNew.run m args skip)
  unfolding InitNew.run
  init_new-Performs args skip old =
      after-Leads (check_arguments m args) _ (check_arguments-Keeps m f.file f.apart args)
        (λ u w same e.
          let valid = check_arguments_sound args w e in
          let saved : (hash : List ℕ)
              → Performs m f (init_new args) old (save m (initial_state args "ext4" hash)) =
            λ hash.
              save-Performs m f (init_new args) old (initial_state args "ext4" hash)
                (hash, valid, refl) in
          search
            (
              leads_rules,
              require-Keeps m f.file f.apart,
              confirm_reinitialize-Keeps m f.file f.apart,
              validate_volumes-Keeps m f.file f.apart,
              validate_size-Keeps m f.file f.apart,
              confirm-Keeps m f.file f.apart,
              mkfs_ext4-Keeps m f.file f.apart,
              f.unwritten,
              full_copy-Keeps m f.file f.apart,
              f.unwritten,
              hash_superblock-Keeps m f.file f.apart,
              saved,
            )
            depth 12)

  pub init_from-Performs :
      (args : InitArgs) (fstype : String) (no_copy skip : Bool) (old : Option (List ℕ))
      → Performs m f (init_from args fstype no_copy) old (InitFrom.run m args fstype no_copy skip)
  unfolding InitFrom.run
  init_from-Performs args fstype no_copy skip old =
      let command = init_from args fstype no_copy in
      after-Leads (check_arguments m args) _ (check_arguments-Keeps m f.file f.apart args)
        (λ u w same e.
          let valid = check_arguments_sound args w e in
          let saved : (hash : List ℕ)
              → Performs m f command old (save m (initial_state args fstype hash)) =
            λ hash.
              save-Performs m f command old (initial_state args fstype hash) (hash, valid, refl) in
          search
            (
              leads_rules,
              confirm_reinitialize-Keeps m f.file f.apart,
              validate_volumes-Keeps m f.file f.apart,
              validate_size-Keeps m f.file f.apart,
              confirm-Keeps m f.file f.apart,
              copy_unless-Keeps m f.file f.apart,
              f.unwritten,
              hash_superblock-Keeps m f.file f.apart,
              saved,
            )
            depth 12)
