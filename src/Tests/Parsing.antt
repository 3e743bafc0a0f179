-- ===== src/Tests/Parsing.antt =====
-- Names, reports and mounts at concrete inputs.
use schelk.Base.{
  ℕ, ◌≡◌, ◌≢◌, refl, true, List, [], ◌∷◌, some, none, Option, ok, err, All, if◌then◌else◌, ◌⊎◌,
}
use schelk.Base.Text.{codes, str_eq, parse_digits, parse_unsigned, decimal}
use schelk.Error.{os_error}
use schelk.Machine.{Machine, XmlEvent, empty, eof, other}
use schelk.Io.Chunks.{BlockRange}
use schelk.Io.Volume.{hash_superblock, read_superblock}
use schelk.Dmera
use schelk.Cmd
use schelk.Mount.{mount, lists_mount}
use schelk.Processes.{scan, uses_mount, is_under, has_fd_under, any_under}
use schelk.Paths.{path_starts_with, components}
use schelk.Processes.Users.{IsStatic, users, scan-users}
use schelk.Mount.Table.{MountEntry, IsEntry, table, has_point, lists_mount-table}
use schelk.Text.{split_by, is_whitespace}
use schelk.Dmera.Name.{validate_codes}
use schelk.Dmera.Name.Accepted.{IsPlain, validate_codes-IsPlain}
use schelk.Dmera.Xml.{
  parse_value, range_attrs, block_attrs, parse_element, parse_events, parse_era_invalidate_xml,
}
use schelk.Dmera.Xml.Bounds.{IsU64Range, parse_era_invalidate_xml-IsU64Range}
use schelk.Commands.Mount.{start_tracking, check_superblocks}
use schelk.Commands.Mount.Tracking.{start_tracking-removes, check_superblocks_sound}
use schelk.Tests.Bench.{bench, mounted_state, changed_volumes}

accepted : validate_codes (codes "bench_era-1.0") ≡ ok tt
unfolding validate_codes
accepted = refl

validate_codes-IsPlain_example :
    (codes "bench_era-1.0" ≢ [])
    × All IsPlain (codes "bench_era-1.0")
    × ((rest : List ℕ) → codes "bench_era-1.0" ≢ (b'-' ∷ rest))
validate_codes-IsPlain_example = validate_codes-IsPlain (codes "bench_era-1.0") accepted

abbrev events : List (Option XmlEvent)
events =
    some other
    ∷ some (
        empty "range" (
          record { key = "begin"; value = some (b'1' ∷ b'2' ∷ []) }
          ∷ record { key = "end"; value = some (b'2' ∷ b'0' ∷ []) }
          ∷ []))
    ∷ some (empty "block" (record { key = "block"; value = some (b'7' ∷ []) } ∷ []))
    ∷ some eof
    ∷ []

abbrev ranges : List BlockRange
ranges = record { start = 12; len = 8 } ∷ record { start = 7; len = 1 } ∷ []

parsed : parse_era_invalidate_xml events ≡ ok ranges
unfolding parse_era_invalidate_xml parse_events parse_element range_attrs block_attrs parse_value
    parse_unsigned parse_digits
parsed = refl

parse_era_invalidate_xml-IsU64Range_example : All IsU64Range ranges
parse_era_invalidate_xml-IsU64Range_example =
    parse_era_invalidate_xml-IsU64Range events ranges parsed

-- The bench without a program that mounts.
abbrev no_mount : Machine
no_mount = record bench {
  exec = λ cmd args w.
      (if str_eq cmd "mount" then none else some (record { stdout = []; success = true }), w);
}

fails : (start_tracking no_mount mounted_state 8192 changed_volumes).0 ≡ err os_error
unfolding start_tracking Dmera.create Dmera.checkpoint Dmera.remove Dmera.message Dmera.dmsetup
    Dmera.table Dmera.device_path Cmd.run Cmd.run_unchecked mount decimal
fails = refl

start_tracking-removes_example :
    let create = Dmera.create no_mount "bench_era" "/dev/ram0" "/dev/s" 8192 4096 in
    let w' = (start_tracking no_mount mounted_state 8192 changed_volumes).1 in
    (((create changed_volumes).0 ≡ err os_error) × (w' ≡ (create changed_volumes).1))
    ⊎ ((before : no_mount.World) × (w' ≡ (Dmera.remove no_mount "bench_era" before).1))
start_tracking-removes_example =
    start_tracking-removes no_mount mounted_state 8192 changed_volumes os_error fails

matches : (check_superblocks bench mounted_state changed_volumes).0 ≡ ok tt
unfolding check_superblocks hash_superblock read_superblock
matches = refl

check_superblocks_sound_example :
    ((hash_superblock bench "/dev/v" changed_volumes).0 ≡ ok (7 ∷ []))
    × ((hash_superblock bench "/dev/s" (hash_superblock bench "/dev/v" changed_volumes).1).0
        ≡ ok (7 ∷ []))
check_superblocks_sound_example =
    check_superblocks_sound bench mounted_state changed_volumes matches

abbrev proc_mounts : List MountEntry
proc_mounts =
    record { device = codes "proc"; point = codes "/proc"; rest = codes "proc rw 0 0" }
    ∷ record {
      device = codes "/dev/mapper/bench_era";
      point = codes "/mnt";
      rest = codes "ext4 rw 0 0";
    }
    ∷ []

entries : All IsEntry proc_mounts
unfolding is_whitespace
entries = (
  record {
    device_word = (λ e. cc, (refl, (refl, (refl, (refl, tt)))));
    point_word = (λ e. cc, (refl, (refl, (refl, (refl, (refl, tt))))));
    one_line =
        (refl, (refl, (refl, (refl, (refl, (refl, (refl, (refl, (refl, (refl, (refl, tt)))))))))));
  },
  (
    record {
      device_word = (
        λ e. cc,
        (
          refl,
          (
            refl,
            (
              refl,
              (
                refl,
                (
                  refl,
                  (
                    refl,
                    (
                      refl,
                      (
                        refl,
                        (
                          refl,
                          (
                            refl,
                            (
                              refl,
                              (
                                refl,
                                (
                                  refl,
                                  (
                                    refl,
                                    (refl, (refl, (refl, (refl, (refl, (refl, (refl, tt))))))),
                                  ),
                                ),
                              ),
                            ),
                          ),
                        ),
                      ),
                    ),
                  ),
                ),
              ),
            ),
          ),
        ),
      );
      point_word = (λ e. cc, (refl, (refl, (refl, (refl, tt)))));
      one_line = (
        refl,
        (refl, (refl, (refl, (refl, (refl, (refl, (refl, (refl, (refl, (refl, tt)))))))))),
      );
    },
    tt,
  ),
)

lists_mount-table_example :
    lists_mount (codes "/mnt") (table proc_mounts) ≡ has_point (codes "/mnt") proc_mounts
lists_mount-table_example = lists_mount-table (codes "/mnt") proc_mounts entries

-- The bench with a process whose working directory is below /mnt.
abbrev occupied : Machine
occupied = record bench {
  read_link = λ p w. (if str_eq p "/proc/12/cwd" then some "/mnt/data" else some "/home", w);
}

static : IsStatic occupied
static = record { link_static = λ p w. refl; dir_static = λ p w. refl; read_static = λ p w. refl }

scan-users_example :
    scan occupied "/mnt" ("self" ∷ "11" ∷ "12" ∷ []) changed_volumes
    ≡ (users occupied "/mnt" changed_volumes ("self" ∷ "11" ∷ "12" ∷ []), changed_volumes)
scan-users_example = scan-users occupied "/mnt" changed_volumes static ("self" ∷ "11" ∷ "12" ∷ [])

finds : (scan occupied "/mnt" ("self" ∷ "11" ∷ "12" ∷ []) changed_volumes).0 ≡ 12 ∷ []
unfolding scan uses_mount is_under has_fd_under any_under path_starts_with components split_by
    parse_unsigned parse_digits
finds = refl
