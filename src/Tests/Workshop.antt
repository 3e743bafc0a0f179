-- ===== src/Tests/Workshop.antt =====
-- A machine with two volumes, a state file and a dm-era device that is there or not: a cycle of a
-- benchmark in which the second block is written.
use schelk.Base.{
  ℕ, ◌≡◌, refl, true, false, Bool, List, [], ◌∷◌, Option, some, none, if◌then◌else◌, ok, arith,
}
use schelk.Base.Text.{String, str_eq}
use schelk.Io.Chunks.{CopyChunk}
use schelk.Io.Ring.{Bytes}
use schelk.Io.Volume.Exact.{IsVolumePair}
use schelk.Machine.{Machine, empty, eof}
use schelk.State.Disks.{FilesKeep}
use schelk.Session.Apart.{IsApart}
use schelk.Session.Stored.{StateFile}
use schelk.Tests.Bench.{rig_of, kernel-IsLawful}
use schelk.Tests.Codec.{to_json, from_json, json_back}
use schelk.Tests.Filing.{is_some, absent_file, never}

pub record Shop : Type 0 where
  pub virgin : Bytes
  pub scratch : Bytes
  pub file : Option (List ℕ)
  pub temp : Option (List ℕ)
  pub tracked : Bool

abbrev first : List String → String
first [] = ""
first (arg ∷ args) = arg

-- The device is created, removed, or asked for; every other program succeeds.
abbrev pub exec : String → List String → Shop → Bool × Shop
exec cmd args w =
    if str_eq cmd "dmsetup"
    then (if str_eq (first args) "create"
        then (true, record w { tracked = true })
        else if str_eq (first args) "remove"
        then (true, record w { tracked = false })
        else if str_eq (first args) "info"
        then (w.tracked, w)
        else (true, w))
    else (true, w)

-- The RAM disk has a mebibyte, a volume two blocks.
abbrev pub size_of : String → ℕ
size_of p = if str_eq p "/dev/ram0" then 1048576 else 8192

-- The workers complete the first chunk.
abbrev pub first_len : List CopyChunk → ℕ
first_len [] = 0
first_len (chunk ∷ chunks) = chunk.len

abbrev pub workshop : Machine
workshop = record {
  World = Shop;
  is_root = λ w. (true, w);
  exists_path = λ p w. (if str_eq p "/var/lib/schelk/state.json" then is_some w.file else true, w);
  metadata = λ p w. (some (record { len = size_of p; is_block_device = true }), w);
  canonicalize = λ p w. (some p, w);
  open_as = λ a p w. (true, w);
  seek_end = λ p w. (some (size_of p), w);
  read_to_string = λ p w. (if str_eq p "/var/lib/schelk/state.json" then w.file else some [], w);
  read_exact = λ p n w. (some (7 ∷ []), w);
  create_dir_all = λ p w. (true, w);
  create = λ p w. (true, record w { temp = some [] });
  write_all = λ p bytes w. (true, record w { temp = some bytes });
  sync_all = λ p w. (true, w);
  rename = λ p q w. (true, record w { file = w.temp; temp = none });
  flock = λ p w. (true, w);
  write_zeros = λ p offset len w. (true, w);
  umount2 = λ p w. (ok tt, w);
  kill = λ pid w. w;
  parent = λ p. none;
  read_dir = λ p w. (some [], w);
  read_link = λ p w. (none, w);
  exec = λ cmd args w.
      let (success, w') = exec cmd args w in (some (record { stdout = []; success = success }), w');
  prompt = λ w. (some (b'y' ∷ []), w);
  open_direct = λ a p w. (ok tt, w);
  disk = λ p w. if str_eq p "/dev/v" then w.virgin else w.scratch;
  set_disk = λ p b w. record w {
    virgin = if str_eq p "/dev/v" then b else w.virgin;
    scratch = if str_eq p "/dev/v" then w.scratch else b;
  };
  rig = λ src dst c chunks w. rig_of (first_len chunks);
  from_json = from_json;
  to_json = to_json;
  from_utf8 = λ bytes. some bytes;
  sha256 = λ bytes. bytes;
  read_events = λ bytes.
      some (empty "block" (record { key = "block"; value = some (b'1' ∷ []) } ∷ []))
      ∷ some eof
      ∷ [];
  state_path = "/var/lib/schelk/state.json";
  state_dir = "/var/lib/schelk";
}

pub exec_keeps_file :
    (cmd : String) (args : List String) (w : Shop) → (exec cmd args w).1.file ≡ w.file
exec_keeps_file cmd args w = ground arith

pub workshop-IsApart : IsApart workshop {X = Option (List ℕ)} (λ w. w.file)
workshop-IsApart = record {
  is_root = record { at = λ w. refl };
  exists_path = λ p. record { at = λ w. refl };
  metadata = λ p. record { at = λ w. refl };
  canonicalize = λ p. record { at = λ w. refl };
  open_as = λ a p. record { at = λ w. refl };
  seek_end = λ p. record { at = λ w. refl };
  read_to_string = λ p. record { at = λ w. refl };
  read_exact = λ p n. record { at = λ w. refl };
  create_dir_all = λ p. record { at = λ w. refl };
  sync_all = λ p. record { at = λ w. refl };
  flock = λ p. record { at = λ w. refl };
  umount2 = λ p. record { at = λ w. refl };
  kill = λ pid w. refl;
  read_dir = λ p. record { at = λ w. refl };
  read_link = λ p. record { at = λ w. refl };
  exec = λ cmd args quiet. record { at = λ w. exec_keeps_file cmd args w };
  prompt = record { at = λ w. refl };
  open_direct = λ a p. record { at = λ w. refl };
}

abbrev pub workshop_file : StateFile workshop
workshop_file = record {
  file = λ w. w.file;
  temp = λ w. w.temp;
  apart = workshop-IsApart;
  unwritten = λ p. record {
    mkfs = record { at = λ w. refl };
    write_zeros = λ offset len. record { at = λ w. refl };
    set_disk = λ b w. refl;
  };
  create_keeps = λ w. refl;
  write_keeps = λ bytes w. refl;
  write_all = λ bytes w created written. refl;
  sync_keeps = λ w. refl;
  rename_moves = λ w moved. refl;
  rename_fails = λ w failed. absurd (never failed);
  reads = λ bytes w e. e;
  exists = λ w e. absent_file w.file e;
  codec = json_back;
}

pub pair : IsVolumePair workshop "/dev/v" "/dev/s"
pair = record {
  lawful = λ c chunks w id. kernel-IsLawful;
  stored = λ b w. refl;
  apart = λ b w. refl;
  open_keeps_src = λ a p w. refl;
  open_keeps_dst = λ a p w. refl;
}

pub shop_keeps : (path : String) → FilesKeep workshop path
shop_keeps path = record {
  dir_keeps = λ p. record { at = λ w. refl };
  create_keeps = record { at = λ w. refl };
  write_keeps = λ bytes. record { at = λ w. refl };
  sync_keeps = λ p. record { at = λ w. refl };
  rename_keeps = record { at = λ w. refl };
  open_keeps = λ a p. record { at = λ w. refl };
}
