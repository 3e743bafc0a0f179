-- ===== src/Tests/Filing.antt =====
-- Sessions on a machine with a state file.
use schelk.Base.{
  arith, ℕ, ◌≡◌, ◌≢◌, refl, Bool, true, false, List, [], ◌∷◌, Option, none, some, if◌then◌else◌, ok,
  err, ◌⊎◌,
}
use schelk.Base.Text.{str_eq, codes}
use schelk.Machine.{Machine}
use schelk.Error.{Error, already_running}
use schelk.Base.{Result}
use schelk.Base.Words.{add64, mul64}
use schelk.Effect.Outcome.{Fails}
use schelk.Env.{require_root, confirm}
use schelk.State.{load, lock, save}
use schelk.Dmera.Name.{validate_name, validate_codes}
use schelk.Io.Volume.{get_size, validate_block_device, hash_superblock, read_superblock}
use schelk.Ramdisk.{validate_size, min_with_buffer, calculate_required_sizes}
use schelk.Commands.InitCommon.{
  InitArgs, check_arguments, validate_granularity, reject_same_device, confirm_reinitialize,
  validate_volumes,
}
use schelk.Commands.InitFrom
use schelk.Commands.Status.{hex_encode}
use schelk.Commands.Status.Hex.{hex_decode, hex_decode-hex_encode}
use schelk.Paths.{path_eq, path_starts_with, components}
use schelk.Text.{split_by}
use schelk.Cli.{Command, init_from, mount, restore, promote, full_recover, status, run_command}
use schelk.Session.Spec.{Does, IsConsistent}
use schelk.Session.Main.{run_session, run_command-Does, run_session-IsConsistent}
use schelk.Tests.Bench.{rig, mounted_state}
use schelk.Tests.Codec.{to_json, from_json, json_back}
use schelk.Session.Apart.{IsApart}
use schelk.Session.Stored.{StateFile, stored, save-Saved, load-save}
use schelk.Session.Excluded.{held, run_command-excluded}

-- The state file and its copy as the program sees them, whether their contents are on the disk, and
-- the contents of the state file that the disk names.
pub record Files : Type 0 where
  pub file : Option (List ℕ)
  pub temp : Option (List ℕ)
  pub file_synced : Bool
  pub temp_synced : Bool
  pub named : Option (List ℕ)

abbrev pub is_some : Option (List ℕ) → Bool
is_some none = false
is_some (some bytes) = true

-- A device that is asked for is not there; every other call succeeds.
abbrev pub filing : Machine
filing = record {
  World = Files;
  is_root = λ w. (true, w);
  exists_path = λ p w. (if str_eq p "/var/lib/schelk/state.json" then is_some w.file else true, w);
  metadata = λ p w. (some (record { len = 1048576; is_block_device = true }), w);
  canonicalize = λ p w. (some p, w);
  open_as = λ a p w. (true, w);
  seek_end = λ p w. (some 1048576, w);
  read_to_string = λ p w. (if str_eq p "/var/lib/schelk/state.json" then w.file else some [], w);
  read_exact = λ p n w. (some (7 ∷ []), w);
  create_dir_all = λ p w. (true, w);
  create = λ p w. (true, record w { temp = some []; temp_synced = false });
  write_all = λ p bytes w. (true, record w { temp = some bytes; temp_synced = false });
  sync_all = λ p w. (
    true,
    record w {
      temp_synced = if str_eq p "/var/lib/schelk" then w.temp_synced else true;
      named = if str_eq p "/var/lib/schelk" then w.file else w.named;
    },
  );
  rename = λ p q w. (
    true,
    record w { file = w.temp; temp = none; file_synced = w.temp_synced; temp_synced = false },
  );
  flock = λ p w. (true, w);
  write_zeros = λ p offset len w. (true, w);
  umount2 = λ p w. (ok tt, w);
  kill = λ pid w. w;
  parent = λ p. none;
  read_dir = λ p w. (some [], w);
  read_link = λ p w. (none, w);
  exec = λ cmd args w. (some (record { stdout = []; success = str_eq cmd "which" }), w);
  prompt = λ w. (some (b'y' ∷ []), w);
  open_direct = λ a p w. (ok tt, w);
  disk = λ p w i. 0;
  set_disk = λ p b w. w;
  rig = λ src dst c chunks w. rig;
  from_json = from_json;
  to_json = to_json;
  from_utf8 = λ bytes. some bytes;
  sha256 = λ bytes. bytes;
  read_events = λ bytes. [];
  state_path = "/var/lib/schelk/state.json";
  state_dir = "/var/lib/schelk";
}

pub filing-IsApart : IsApart filing {X = Option (List ℕ)} (λ w. w.file)
filing-IsApart = record {
  is_root = record { at = λ w. refl };
  exists_path = λ p. record { at = λ w. refl };
  metadata = λ p. record { at = λ w. refl };
  canonicalize = λ p. record { at = λ w. refl };
  open_as = λ a p. record { at = λ w. refl };
  seek_end = λ p. record { at = λ w. refl };
  read_to_string = λ p. record { at = λ w. refl };
  read_exact = λ p n. record { at = λ w. refl };
  create_dir_all = λ p. record { at = λ w. refl };
  sync_all = λ p. record { at = λ w. refl };
  flock = λ p. record { at = λ w. refl };
  umount2 = λ p. record { at = λ w. refl };
  kill = λ pid w. refl;
  read_dir = λ p. record { at = λ w. refl };
  read_link = λ p. record { at = λ w. refl };
  exec = λ cmd args quiet. record { at = λ w. refl };
  prompt = record { at = λ w. refl };
  open_direct = λ a p. record { at = λ w. refl };
}

pub absent_file : (o : Option (List ℕ)) → is_some o ≡ false → o ≡ none
absent_file none e = refl
absent_file (some bytes) e = absurd (cc)

pub never : true ≡ false → ⊥
never e = cc

abbrev pub state_file : StateFile filing
state_file = record {
  file = λ w. w.file;
  temp = λ w. w.temp;
  apart = filing-IsApart;
  unwritten = λ p. record {
    mkfs = record { at = λ w. refl };
    write_zeros = λ offset len. record { at = λ w. refl };
    set_disk = λ b w. refl;
  };
  create_keeps = λ w. refl;
  write_keeps = λ bytes w. refl;
  write_all = λ bytes w created written. refl;
  sync_keeps = λ w. refl;
  rename_moves = λ w moved. refl;
  rename_fails = λ w failed. absurd (never failed);
  reads = λ bytes w e. e;
  exists = λ w e. absent_file w.file e;
  codec = json_back;
}

abbrev pub fresh : Files
fresh = record { file = none; temp = none; file_synced = true; temp_synced = false; named = none }

abbrev pub new_args : InitArgs
new_args = record {
  virgin = "/dev/v";
  scratch = "/dev/s";
  ramdisk = "/dev/ram0";
  mount_point = "/mnt";
  mount_options = none;
  granularity = 4096;
  dm_era_name = "bench_era";
}

abbrev adopting : Command
adopting = init_from new_args "ext4" true

adopts : (run_command filing true adopting fresh).0 ≡ ok tt
unfolding run_command InitFrom.run check_arguments require_root lock validate_granularity
    reject_same_device path_eq path_starts_with components split_by validate_name validate_codes
    confirm_reinitialize load validate_volumes validate_block_device get_size validate_size
    min_with_buffer calculate_required_sizes add64 mul64 confirm InitFrom.copy_unless
    hash_superblock read_superblock save
adopts = refl

run_command-Does_example :
    Does adopting
      (stored filing state_file fresh)
      (stored filing state_file (run_command filing true adopting fresh).1)
run_command-Does_example = run_command-Does filing state_file true adopting fresh adopts

abbrev commands : List (Bool × Command)
commands =
    (true, adopting)
    ∷ (true, mount)
    ∷ (true, restore true)
    ∷ (true, promote false)
    ∷ (true, full_recover)
    ∷ []

run_session-IsConsistent_example :
    IsConsistent (stored filing state_file (run_session filing commands fresh))
run_session-IsConsistent_example = run_session-IsConsistent filing state_file commands fresh tt

abbrev saving : Result Error (Unit {0}) × Files
saving = save filing mounted_state fresh

save-Saved_example :
    ((saving.1.file ≡ none) × Fails saving.0) ⊎ (saving.1.file ≡ some (to_json mounted_state))
save-Saved_example = save-Saved filing state_file mounted_state fresh

pub saves : (save filing mounted_state fresh).0 ≡ ok tt
unfolding save
saves = refl

loads : (load filing (save filing mounted_state fresh).1).0 ≡ ok (some mounted_state)
unfolding load save
loads = rw (json_back mounted_state) refl

load-save_example : some mounted_state ≡ some mounted_state
load-save_example = load-save filing state_file mounted_state (some mounted_state) fresh saves loads

-- Another process holds the lock.
abbrev locked : Machine
locked = record filing { flock = λ p w. (false, w) }

no_status : full_recover ≢ status
no_status e = cc

run_command-excluded_example :
    run_command locked true full_recover fresh ≡ (err already_running, fresh)
run_command-excluded_example =
    run_command-excluded locked true full_recover fresh fresh already_running no_status
      (held refl refl refl refl)

hex_decode-hex_encode_example : hex_decode (codes (hex_encode (10 ∷ 255 ∷ []))) ≡ 10 ∷ 255 ∷ []
hex_decode-hex_encode_example =
    hex_decode-hex_encode (10 ∷ 255 ∷ []) (omega arith, (omega arith, tt))
