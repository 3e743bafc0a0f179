-- ===== src/Session/Runs.antt =====
-- The commands of src/commands against the state machine of a session.
use schelk.Base.{
  ℕ, ◌≡◌, refl, sym, ap, ◌∙◌, subst, Bool, true, false, not, List, Option, some, inr, if◌then◌else◌,
  ok,
}
use schelk.Error.{not_initialized, not_mounted, already_mounted}
use schelk.Machine.{Machine, AppState}
use schelk.Effect.{M, pure, ◌>>=◌, ◌>>◌, ensure, given}
use schelk.Effect.Laws.{seq_ok, passed_ok}
use schelk.Effect.Outcome.{Leads, leads_rules, after-Leads, ensure-Leads, given-Leads}
use schelk.State.{load, save}
use schelk.Commands.Mount
use schelk.Commands.Recover
use schelk.Commands.Promote
use schelk.Session.Apart.{confirm-Keeps, load-Keeps}
use schelk.Session.Apart.Volumes.{
  get_size-Keeps, hash_superblock-Keeps, zero_device-Keeps, copy_blocks-Keeps, validate_size-Keeps,
}
use schelk.Session.Apart.Steps.{
  check_unmounted-Keeps, check_superblocks-Keeps, start_tracking-Keeps, collect_changed-Keeps,
  check_tracked-Keeps, unmount_mounted-Keeps,
}
use schelk.Session.Stored.{StateFile, parsed, save-Leads, load_stored}
use schelk.Session.Spec.{Does, mounted, unmounted, recovered, rehashed, recovered_on, recovered_off}
use schelk.Cli.{Command, mount, recover, promote}

module _ (m : Machine) (f : StateFile m) where
  open m use {World}

  -- From contents of the state file, the command fails and leaves them, or does its step.
  abbrev pub Performs : Command → Option (List ℕ) → M World (Unit {0}) → Type 0
  Performs command old c =
      Leads f.file old (λ new. Does command (parsed m f old) (parsed m f new)) c

  pub save-Performs :
      (command : Command) (old : Option (List ℕ)) (state : AppState)
      → Does command (parsed m f old) (some state)
      → Performs command old (save m state)
  save-Performs command old state d =
      save-Leads m f state old (λ new. Does command (parsed m f old) (parsed m f new))
        (subst (Does command (parsed m f old)) (sym (f.codec state)) d)

  -- What follows `load` may use that the state is the stored one.
  pub load-Performs :
      (command : Command) (old : Option (List ℕ)) (d : AppState → M World (Unit {0}))
      → ((s : AppState) → parsed m f old ≡ some s → Performs command old (d s))
      → Performs command old (load m >>= λ loaded. (λ w. (given loaded not_initialized, w)) >>= d)
  load-Performs command old d k =
      after-Leads (load m) (λ loaded. (λ w. (given loaded not_initialized, w)) >>= d)
        (load-Keeps m f.file f.apart)
        (λ loaded w same e.
          given-Leads loaded not_initialized d
            (λ s found. k s (ap (parsed m f) (sym same) ∙ load_stored m f loaded w e ∙ found)))

  check_unmounted_sound :
      (state : AppState) (w : World)
      → (Mount.check_unmounted m state w).0 ≡ ok tt
      → state.is_mounted ≡ false
  unfolding Mount.check_unmounted
  check_unmounted_sound state w e =
      let (u, free, rest, last) = seq_ok (ensure (not state.is_mounted) already_mounted) _ w tt e in
      not_true state.is_mounted (passed_ok (not state.is_mounted) already_mounted free)
    where
      not_true : (b : Bool) → not b ≡ true → b ≡ false
      not_true true h = cc
      not_true false h = refl

  mount_state-Performs :
      (old : Option (List ℕ)) (s : AppState)
      → parsed m f old ≡ some s
      → Performs mount old (Mount.mount_state m s)
  unfolding Mount.mount_state
  mount_state-Performs old s was =
      after-Leads (Mount.check_unmounted m s) _ (check_unmounted-Keeps m f.file f.apart s)
        (λ u w same e.
          search
            (
              leads_rules,
              get_size-Keeps m f.file f.apart,
              validate_size-Keeps m f.file f.apart,
              check_superblocks-Keeps m f.file f.apart,
              zero_device-Keeps m f.file f.apart,
              f.unwritten,
              start_tracking-Keeps m f.file f.apart,
              save-Performs mount old (mounted s) (s, was, check_unmounted_sound s w e, refl),
            )
            depth 9)

  pub mount_locked-Performs : (old : Option (List ℕ)) → Performs mount old (Mount.run_locked m)
  unfolding Mount.run_locked
  mount_locked-Performs old =
      load-Performs mount old (Mount.mount_state m) (mount_state-Performs old)

  recover_state-Performs :
      (kill : Bool) (old : Option (List ℕ)) (s : AppState)
      → parsed m f old ≡ some s
      → s.is_mounted ≡ true
      → Performs (recover kill) old (Recover.recover_state m s kill)
  unfolding Recover.recover_state
  recover_state-Performs kill old s was is_on =
      let now : some (unmounted s) ≡ some (recovered s) = ap some (sym (recovered_on s is_on)) in
      search
        (
          leads_rules,
          check_tracked-Keeps m f.file f.apart,
          unmount_mounted-Keeps m f.file f.apart,
          collect_changed-Keeps m f.file f.apart,
          copy_blocks-Keeps m f.file f.apart,
          f.unwritten,
          save-Performs (recover kill) old (unmounted s) (s, was, now),
        )
        depth 9

  -- The command leaves the state as it is, and that is its step.
  stay-Performs :
      (command : Command) (old : Option (List ℕ))
      → Does command (parsed m f old) (parsed m f old)
      → Performs command old (pure tt)
  stay-Performs command old d = record {
    at = λ w same. inr (subst (λ new. Does command (parsed m f old) (parsed m f new)) (sym same) d);
  }

  recover_if-Performs :
      (kill : Bool) (old : Option (List ℕ)) (s : AppState) (b : Bool)
      → s.is_mounted ≡ b
      → parsed m f old ≡ some s
      → Performs (recover kill) old (if b then Recover.recover_state m s kill else pure tt)
  recover_if-Performs kill old s true e was = recover_state-Performs kill old s was e
  recover_if-Performs kill old s false e was =
      stay-Performs (recover kill) old (s, was, was ∙ ap some (sym (recovered_off s e)))

  pub recover_locked-Performs :
      (kill : Bool) (old : Option (List ℕ))
      → Performs (recover kill) old (Recover.run_locked m kill)
  unfolding Recover.run_locked
  recover_locked-Performs kill old =
      load-Performs (recover kill) old
        (λ s. if s.is_mounted then Recover.recover_state m s kill else pure tt)
        (λ s was. recover_if-Performs kill old s s.is_mounted refl was)

  promote_state-Performs :
      (skip kill : Bool) (old : Option (List ℕ)) (s : AppState)
      → parsed m f old ≡ some s
      → s.is_mounted ≡ true
      → Performs (promote kill) old (Promote.promote_state m s skip kill)
  unfolding Promote.promote_state
  promote_state-Performs skip kill old s was is_on =
      let saved : (hash : List ℕ)
          → Performs (promote kill) old (save m (rehashed hash (unmounted s))) =
        λ hash.
          save-Performs (promote kill) old (rehashed hash (unmounted s))
            (s, hash, was, is_on, refl) in
      search
        (
          leads_rules,
          check_tracked-Keeps m f.file f.apart,
          confirm-Keeps m f.file f.apart,
          unmount_mounted-Keeps m f.file f.apart,
          collect_changed-Keeps m f.file f.apart,
          copy_blocks-Keeps m f.file f.apart,
          f.unwritten,
          hash_superblock-Keeps m f.file f.apart,
          saved,
        )
        depth 9

  pub promote_loaded-Performs :
      (skip kill : Bool) (old : Option (List ℕ))
      → Performs (promote kill) old (
          load m >>= λ loaded. (λ w. (given loaded not_initialized, w)) >>= λ s.
          ensure s.is_mounted not_mounted >> Promote.promote_state m s skip kill)
  promote_loaded-Performs skip kill old =
      load-Performs (promote kill) old
        (λ s. ensure s.is_mounted not_mounted >> Promote.promote_state m s skip kill)
        (λ s was.
          ensure-Leads s.is_mounted not_mounted (Promote.promote_state m s skip kill)
            (λ is_on. promote_state-Performs skip kill old s was is_on))
