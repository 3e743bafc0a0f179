-- ===== src/Session/Spec.antt =====
-- What the commands do to the stored state, as a relation for each of them, apart from the volumes:
-- the state machine of a session with the program.
use schelk.Base.{
  ℕ, ◌≡◌, refl, ◌%◌, ◌<◌, Bool, true, false, List, Option, none, some, if◌then◌else◌, ok, sym, ◌⊎◌,
  inl, inr, subst,
}
use schelk.Base.Text.{String}
use schelk.Machine.{AppState}
use schelk.Dmera.Name.{validate_name}
use schelk.Commands.InitCommon.{InitArgs}
use schelk.Cli.{
  Command, init_new, init_from, full_recover, mount, recover, restore, promote, status,
}

-- The granularity is a positive multiple of 512 bytes, and the name of the device is accepted.
pub record IsValid (granularity : ℕ) (dm_era_name : String) : Type 0 where
  pub positive : 0 < granularity
  pub aligned : granularity % 512 ≡ 0
  pub named : validate_name dm_era_name ≡ ok tt

abbrev pub mounted : AppState → AppState
mounted state = record state { is_mounted = true; current_era = some 1 }

abbrev pub unmounted : AppState → AppState
unmounted state = record state { is_mounted = false; current_era = none }

-- Not mounted, whatever it was.
abbrev pub recovered : AppState → AppState
recovered state = if state.is_mounted then unmounted state else state

pub recovered_on : (s : AppState) → s.is_mounted ≡ true → recovered s ≡ unmounted s
recovered_on s e = choose s.is_mounted e
  where
    choose : (b : Bool) → b ≡ true → (if b then unmounted s else s) ≡ unmounted s
    choose true h = refl
    choose false h = absurd (cc)

pub recovered_off : (s : AppState) → s.is_mounted ≡ false → recovered s ≡ s
recovered_off s e = choose s.is_mounted e
  where
    choose : (b : Bool) → b ≡ false → (if b then unmounted s else s) ≡ s
    choose true h = absurd (cc)
    choose false h = refl

-- What unmounting leaves is left.
pub recovered_same :
    {A : Type 0} (g : AppState → A) (s : AppState) → g (unmounted s) ≡ g s → g (recovered s) ≡ g s
recovered_same g s e = choose s.is_mounted
  where
    choose : (b : Bool) → g (if b then unmounted s else s) ≡ g s
    choose true = e
    choose false = refl

abbrev pub rehashed : List ℕ → AppState → AppState
rehashed hash state = record state { virgin_superblock_hash = hash }

-- The state of two volumes that are not mounted, as the arguments describe them.
abbrev pub described : InitArgs → String → List ℕ → AppState
described args fstype hash = record {
  virgin = args.virgin;
  scratch = args.scratch;
  ramdisk = args.ramdisk;
  mount_point = args.mount_point;
  fstype = fstype;
  mount_options = args.mount_options;
  granularity = args.granularity;
  virgin_superblock_hash = hash;
  dm_era_name = args.dm_era_name;
  is_mounted = false;
  current_era = none;
}

-- What a command does when it succeeds, to the state of the file that was there, or none.
abbrev pub Does : Command → Option AppState → Option AppState → Type 0
Does (init_new args) old new =
    (hash : List ℕ) × IsValid args.granularity args.dm_era_name
    × (new ≡ some (described args "ext4" hash))
Does (init_from args fstype no_copy) old new =
    (hash : List ℕ) × IsValid args.granularity args.dm_era_name
    × (new ≡ some (described args fstype hash))
Does full_recover old new =
    (s : AppState) × (hash : List ℕ) × (old ≡ some s) × (new ≡ some (rehashed hash (recovered s)))
Does mount old new =
    (s : AppState) × (old ≡ some s) × (s.is_mounted ≡ false) × (new ≡ some (mounted s))
Does (recover kill) old new = (s : AppState) × (old ≡ some s) × (new ≡ some (recovered s))
Does (restore kill) old new = (s : AppState) × (old ≡ some s) × (new ≡ some (mounted (recovered s)))
Does (promote kill) old new =
    (s : AppState) × (hash : List ℕ) × (old ≡ some s)
    × (s.is_mounted ≡ true)
    × (new ≡ some (rehashed hash (unmounted s)))
Does status old new = new ≡ old

-- What a command may have done by the time that it fails: nothing, or all of its step, where the end of
-- `save` fails after the rename. `restore` may have stopped between its two steps.
abbrev pub MayDo : Command → Option AppState → Option AppState → Type 0
MayDo (init_new args) old new = (new ≡ old) ⊎ Does (init_new args) old new
MayDo (init_from args fstype no_copy) old new =
    (new ≡ old) ⊎ Does (init_from args fstype no_copy) old new
MayDo full_recover old new = (new ≡ old) ⊎ Does full_recover old new
MayDo mount old new = (new ≡ old) ⊎ Does mount old new
MayDo (recover kill) old new = (new ≡ old) ⊎ Does (recover kill) old new
MayDo (restore kill) old new =
    (new ≡ old) ⊎ (Does (recover kill) old new ⊎ Does (restore kill) old new)
MayDo (promote kill) old new = (new ≡ old) ⊎ Does (promote kill) old new
MayDo status old new = new ≡ old

-- A stored state is valid, and has an era exactly when it is mounted, which is the first.
pub record IsConsistentState (state : AppState) : Type 0 where
  pub valid : IsValid state.granularity state.dm_era_name
  pub era : state.current_era ≡ (if state.is_mounted then some 1 else none)

abbrev pub IsConsistent : Option AppState → Type 0
IsConsistent none = Unit
IsConsistent (some state) = IsConsistentState state

recovered-IsConsistentState : (s : AppState) → IsConsistentState s → IsConsistentState (recovered s)
recovered-IsConsistentState s c = either s.is_mounted
  where
    either : (b : Bool) → IsConsistentState (if b then unmounted s else s)
    either true = record { valid = c.valid; era = refl }
    either false = c

IsConsistent-some :
    (old : Option AppState) (s : AppState) → old ≡ some s → IsConsistent old → IsConsistentState s
IsConsistent-some old s e c = subst IsConsistent e c

pub Does-IsConsistent :
    (command : Command) (old new : Option AppState)
    → Does command old new
    → IsConsistent old
    → IsConsistent new
Does-IsConsistent (init_new args) old new (hash, valid, e) c =
    subst IsConsistent (sym e) (record { valid = valid; era = refl })
Does-IsConsistent (init_from args fstype no_copy) old new (hash, valid, e) c =
    subst IsConsistent (sym e) (record { valid = valid; era = refl })
Does-IsConsistent full_recover old new (s, hash, was, e) c =
    let k = recovered-IsConsistentState s (IsConsistent-some old s was c) in
    subst IsConsistent (sym e) (record { valid = k.valid; era = k.era })
Does-IsConsistent mount old new (s, was, free, e) c =
    let k = IsConsistent-some old s was c in
    subst IsConsistent (sym e) (record { valid = k.valid; era = refl })
Does-IsConsistent (recover kill) old new (s, was, e) c =
    subst IsConsistent (sym e) (recovered-IsConsistentState s (IsConsistent-some old s was c))
Does-IsConsistent (restore kill) old new (s, was, e) c =
    let k = recovered-IsConsistentState s (IsConsistent-some old s was c) in
    subst IsConsistent (sym e) (record { valid = k.valid; era = refl })
Does-IsConsistent (promote kill) old new (s, hash, was, free, e) c =
    let k = IsConsistent-some old s was c in
    subst IsConsistent (sym e) (record { valid = k.valid; era = refl })
Does-IsConsistent status old new e c = subst IsConsistent (sym e) c

none_or-IsConsistent :
    (command : Command) (old new : Option AppState)
    → (new ≡ old) ⊎ Does command old new
    → IsConsistent old
    → IsConsistent new
none_or-IsConsistent command old new (inl kept) c = subst IsConsistent (sym kept) c
none_or-IsConsistent command old new (inr does) c = Does-IsConsistent command old new does c

pub MayDo-IsConsistent :
    (command : Command) (old new : Option AppState)
    → MayDo command old new
    → IsConsistent old
    → IsConsistent new
MayDo-IsConsistent (init_new args) old new h c = none_or-IsConsistent (init_new args) old new h c
MayDo-IsConsistent (init_from args fstype no_copy) old new h c =
    none_or-IsConsistent (init_from args fstype no_copy) old new h c
MayDo-IsConsistent full_recover old new h c = none_or-IsConsistent full_recover old new h c
MayDo-IsConsistent mount old new h c = none_or-IsConsistent mount old new h c
MayDo-IsConsistent (recover kill) old new h c = none_or-IsConsistent (recover kill) old new h c
MayDo-IsConsistent (restore kill) old new (inl kept) c = subst IsConsistent (sym kept) c
MayDo-IsConsistent (restore kill) old new (inr does) c = elim does [
  | inl recovers ↦ Does-IsConsistent (recover kill) old new recovers c
  | inr restores ↦ Does-IsConsistent (restore kill) old new restores c
]
MayDo-IsConsistent (promote kill) old new h c = none_or-IsConsistent (promote kill) old new h c
MayDo-IsConsistent status old new kept c = subst IsConsistent (sym kept) c
