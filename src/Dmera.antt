-- ===== src/Dmera.antt =====
-- src/dmera.rs: the dm-era device, by way of dmsetup and era_invalidate.
pub mod Name
pub mod Xml
use schelk.Base.{
  ℕ, zero, suc, ◌+◌, ◌-◌, ◌*◌, ◌/◌, ◌%◌, ◌≤◌, ◌<◌, ◌^◌, min, max, ◌≡◌, Bool, true, false, not, ◌&&◌,
  ◌||◌, List, [], ◌∷◌, ◌++◌, Option, none, some, ltb, leb, ◌==◌, if◌then◌else◌, Result, ok, err,
  map,
}
use schelk.Base.Words.{add64, mul64, u64_mod}
use schelk.Base.Text.{String, ◌<>◌, str_eq, codes, decimal, parse_unsigned, is_digit}
use schelk.Error.{invalid_utf8, Error, command_failed, os_error, invalid_utf8}
use schelk.Machine.{
  Machine, FilePath, Output, Metadata, Access, read, write, Errno, ebusy, other, AppState, Attr,
  XmlEvent,
}
use schelk.Effect.{
  given, M, pure, fail, ◌>>=◌, ◌>>◌, ask, check, need, ensure, attempt, or_cleanup, continue,
  passed, given,
}
use schelk.Cmd
use schelk.Io.Chunks.{BlockRange}
use Xml.{parse_era_invalidate_xml}

-- The path of the device of that name.
unfoldable pub device_path : String → FilePath
device_path name = "/dev/mapper/" <> name

-- The table of the device: its length and its block size in sectors of 512 bytes.
unfoldable pub table : FilePath → FilePath → ℕ → ℕ → String
unfolding decimal
table metadata_dev origin_dev origin_size_bytes granularity =
    "0 "
    <> decimal (origin_size_bytes / 512)
    <> " era "
    <> metadata_dev
    <> " "
    <> origin_dev
    <> " "
    <> decimal (granularity / 512)

module _ (m : Machine) where
  open m use {World}

  unfoldable pub check_dmsetup : M World (Unit {0})
  unfolding Cmd.require
  check_dmsetup = Cmd.require m "dmsetup"

  -- The version is asked for only to warn of a slow one: the call is made, and its outcome dropped.
  unfoldable pub check_era_invalidate : M World (Unit {0})
  unfolding Cmd.require
  check_era_invalidate = do
    Cmd.require m "era_invalidate"
    attempt (need (m.exec "era_invalidate" ("-V" ∷ [])) os_error)

  unfoldable pub exists : String → M World Bool
  unfolding Cmd.run_unchecked
  exists name = do output ← Cmd.run_unchecked m "dmsetup" ("info" ∷ name ∷ []); pure output.success

  -- A call of dmsetup, for its effect.
  unfoldable pub dmsetup : List String → M World (Unit {0})
  unfolding Cmd.run
  dmsetup args = Cmd.run m "dmsetup" args >>= λ output. pure tt

  unfoldable pub create : String → FilePath → FilePath → ℕ → ℕ → M World (Unit {0})
  unfolding dmsetup table
  create name metadata_dev origin_dev origin_size_bytes granularity = dmsetup (
      "create"
      ∷ name
      ∷ "--table"
      ∷ table metadata_dev origin_dev origin_size_bytes granularity
      ∷ [])

  unfoldable pub message : String → String → M World (Unit {0})
  unfolding dmsetup
  message name text = dmsetup ("message" ∷ name ∷ "0" ∷ text ∷ [])

  unfoldable pub checkpoint : String → M World (Unit {0})
  unfolding message
  checkpoint name = message name "checkpoint"

  unfoldable pub remove : String → M World (Unit {0})
  unfolding dmsetup
  remove name = dmsetup ("remove" ∷ name ∷ [])

  unfoldable pub take_metadata_snapshot : String → M World (Unit {0})
  unfolding message
  take_metadata_snapshot name = message name "take_metadata_snap"

  unfoldable pub drop_metadata_snapshot : String → M World (Unit {0})
  unfolding message
  drop_metadata_snapshot name = message name "drop_metadata_snap"

  unfoldable pub get_changed_blocks : FilePath → ℕ → M World (List BlockRange)
  unfolding parse_era_invalidate_xml decimal
  get_changed_blocks metadata_dev since_era = do
    output ←
        need
          (m.exec "era_invalidate"
            ("--metadata-snapshot" ∷ "--written-since" ∷ decimal since_era ∷ metadata_dev ∷ []))
          os_error
    ensure output.success command_failed
    contents ← λ w. (given (m.from_utf8 output.stdout) invalid_utf8, w)
    λ w. (parse_era_invalidate_xml (m.read_events contents), w)
