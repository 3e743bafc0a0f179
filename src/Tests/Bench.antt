-- ===== src/Tests/Bench.antt =====
-- A machine with two volumes, "/dev/v" and "/dev/s", on which every call succeeds, one block of 4096
-- bytes is reported as changed, and a kernel that completes each operation in full.
use schelk.Base.{
  ℕ, ◌+◌, ◌-◌, ◌≡◌, refl, true, Bool, ◌&&◌, ◌≢◌, ◌⊎◌, inl, inr, List, [], ◌∷◌, some, none, ltb, leb,
  if◌then◌else◌, pos, int_beq, ok, arith, Bool-cases, ◌<◌,
}
use schelk.Base.Text.{String, str_eq}
use schelk.Io.Chunks.{BlockRange}
use schelk.Io.Ring.UserData.{free, reading, writing, encode_user_data}
use schelk.Io.Ring.{Bytes, Kernel, IsLawful}
use schelk.Io.Copy.{Rig}
use schelk.Io.Volume.Exact.{IsVolumePair}
use schelk.Machine.{Machine, AppState, empty, eof}
use schelk.State.Disks.{FilesKeep}
use schelk.Commands.Promote.Commits.{ReadsKeep}

abbrev pub kernel : Kernel
kernel = record {
  sets_up = true;
  accepts = λ n. true;
  read_at = λ src offset len result old j.
      if int_beq result (pos len) && ltb j len then src (offset + j) else old j;
  write_at = λ buf offset len result old i.
      if int_beq result (pos len) && (leb offset i && ltb i (offset + len))
      then buf (i - offset)
      else old i;
}

write_mixed_lem :
    (buf : Bytes) (offset len i : ℕ) (whole : Bool) (old : Bytes)
    → let new =
        if whole && (leb offset i && ltb i (offset + len)) then buf (i - offset) else old i in
      (new ≡ old i) ⊎ ((j : ℕ) × (j < len) × (i ≡ offset + j) × (new ≡ buf j))
write_mixed_lem buf offset len i whole old =
    elim (Bool-cases (whole && (leb offset i && ltb i (offset + len)))) [
      | inl inside ↦ inr (i - offset, ground arith, ground arith, rw inside refl)
      | inr outside ↦ inl (rw outside refl)
    ]

read_full_lem :
    (src : Bytes) (offset len j : ℕ) (old : Bytes)
    → j < len
    → (if int_beq (pos len) (pos len) && ltb j len then src (offset + j) else old j)
      ≡ src (offset + j)
read_full_lem src offset len j old h = ground arith

same_place : (offset j : ℕ) → offset + j - offset ≡ j
same_place offset j = omega arith

write_full_lem :
    (buf : Bytes) (offset len j : ℕ) (old : Bytes)
    → j < len
    → (if int_beq (pos len) (pos len)
          && (leb offset (offset + j) && ltb (offset + j) (offset + len))
        then buf (offset + j - offset)
        else old (offset + j))
      ≡ buf j
write_full_lem buf offset len j old h = rw (same_place offset j) (ground arith)

pub kernel-IsLawful : IsLawful kernel
kernel-IsLawful = record {
  read_full = read_full_lem;
  write_full = write_full_lem;
  write_mixed = λ buf offset len i result old.
      write_mixed_lem buf offset len i (int_beq result (pos len)) old;
}

-- A read and a write of that many bytes in the first slot of the first worker.
abbrev pub rig_of : ℕ → Rig
rig_of len = record {
  kernel = λ id. kernel;
  events =
      record {
        ring = 0;
        cqes = record { user_data = encode_user_data 0 reading; result = pos len } ∷ [];
      }
      ∷ record {
        ring = 0;
        cqes = record { user_data = encode_user_data 0 writing; result = pos len } ∷ [];
      }
      ∷ [];
  fsync_succeeds = true;
}

abbrev pub rig : Rig
rig = rig_of 4096

pub record Volumes : Type 0 where
  pub virgin : Bytes
  pub scratch : Bytes

abbrev pub mounted_state : AppState
mounted_state = record {
  virgin = "/dev/v";
  scratch = "/dev/s";
  ramdisk = "/dev/ram0";
  mount_point = "/mnt";
  fstype = "ext4";
  mount_options = none;
  granularity = 4096;
  virgin_superblock_hash = 7 ∷ [];
  dm_era_name = "bench_era";
  is_mounted = true;
  current_era = some 1;
}

abbrev pub bench : Machine
bench = record {
  World = Volumes;
  is_root = λ w. (true, w);
  exists_path = λ p w. (true, w);
  metadata = λ p w. (some (record { len = 4096; is_block_device = true }), w);
  canonicalize = λ p w. (some p, w);
  open_as = λ a p w. (true, w);
  seek_end = λ p w. (some 4096, w);
  read_to_string = λ p w. (some [], w);
  read_exact = λ p n w. (some (7 ∷ []), w);
  create_dir_all = λ p w. (true, w);
  create = λ p w. (true, w);
  write_all = λ p bytes w. (true, w);
  sync_all = λ p w. (true, w);
  rename = λ p q w. (true, w);
  flock = λ p w. (true, w);
  write_zeros = λ p offset len w. (
    true,
    record w { scratch = λ i. if leb offset i && ltb i (offset + len) then 0 else w.scratch i },
  );
  umount2 = λ p w. (ok tt, w);
  kill = λ pid w. w;
  parent = λ p. none;
  read_dir = λ p w. (some [], w);
  read_link = λ p w. (none, w);
  exec = λ cmd args w. (some (record { stdout = []; success = true }), w);
  prompt = λ w. (some (b'y' ∷ []), w);
  open_direct = λ a p w. (ok tt, w);
  disk = λ p w. if str_eq p "/dev/v" then w.virgin else w.scratch;
  set_disk = λ p b w.
      if str_eq p "/dev/v"
      then record { virgin = b; scratch = w.scratch }
      else record { virgin = w.virgin; scratch = b };
  rig = λ src dst c chunks w. rig;
  from_json = λ bytes. some mounted_state;
  to_json = λ state. [];
  from_utf8 = λ bytes. some bytes;
  sha256 = λ bytes. bytes;
  read_events = λ bytes.
      some (empty "block" (record { key = "block"; value = some (b'1' ∷ []) } ∷ []))
      ∷ some eof
      ∷ [];
  state_path = "/var/lib/schelk/state.json";
  state_dir = "/var/lib/schelk";
}

-- The scratch volume differs in the second block.
abbrev pub changed_volumes : Volumes
changed_volumes = record {
  virgin = λ i. 5;
  scratch = λ i. if leb 4096 i && ltb i 8192 then 6 else 5;
}

pub forth : IsVolumePair bench "/dev/v" "/dev/s"
forth = record {
  lawful = λ c chunks w id. kernel-IsLawful;
  stored = λ b w. refl;
  apart = λ b w. refl;
  open_keeps_src = λ a p w. refl;
  open_keeps_dst = λ a p w. refl;
}

pub back : IsVolumePair bench "/dev/s" "/dev/v"
back = record {
  lawful = λ c chunks w id. kernel-IsLawful;
  stored = λ b w. refl;
  apart = λ b w. refl;
  open_keeps_src = λ a p w. refl;
  open_keeps_dst = λ a p w. refl;
}

pub files_keep : (path : String) → FilesKeep bench path
files_keep path = record {
  dir_keeps = λ p. record { at = λ w. refl };
  create_keeps = record { at = λ w. refl };
  write_keeps = λ bytes. record { at = λ w. refl };
  sync_keeps = λ p. record { at = λ w. refl };
  rename_keeps = record { at = λ w. refl };
  open_keeps = λ a p. record { at = λ w. refl };
}

pub reads_keep : (path : String) → ReadsKeep bench path
reads_keep path = record { read_keeps = λ p len w. refl }

pub is_reading : reading ≢ free
is_reading e = cc

pub is_writing : writing ≢ free
is_writing e = cc

abbrev pub one_block : List BlockRange
one_block = record { start = 1; len = 1 } ∷ []
