-- ===== src/Commands/Status.antt =====
-- src/commands/status.rs: the report, as the lines that are printed.
pub mod Hex
pub mod Robust
use schelk.Base.{
  ℕ, zero, suc, ◌-◌, ◌/◌, ◌%◌, Bool, false, List, [], ◌∷◌, ◌++◌, Option, none, some, Result, ok,
  err, ltb, if◌then◌else◌,
}
use schelk.Base.Text.{String, ◌<>◌, decimal, digit_text}
use schelk.Error.{Error}
use schelk.Machine.{Machine, AppState}
use schelk.Effect.{M, pure, ◌>>=◌}
use schelk.State.{load}
use schelk.Dmera
use schelk.Mount.{is_mounted}

abbrev pub hex_letter : ℕ → String
hex_letter zero = "a"
hex_letter (suc zero) = "b"
hex_letter (suc (suc zero)) = "c"
hex_letter (suc (suc (suc zero))) = "d"
hex_letter (suc (suc (suc (suc zero)))) = "e"
hex_letter _ = "f"

-- A digit of `{:x}`.
unfoldable pub hex_digit : ℕ → String
hex_digit n = if ltb n 10 then digit_text n else hex_letter (n - 10)

-- Two digits for each byte.
unfoldable pub hex_encode : List ℕ → String
unfolding hex_digit
hex_encode [] = ""
hex_encode (b ∷ bytes) = hex_digit (b / 16) <> hex_digit (b % 16) <> hex_encode bytes

-- A line that is printed only for what is there.
abbrev optional : String → Option String → List String
optional label none = []
optional label (some value) = (label <> value) ∷ []

abbrev map_decimal : Option ℕ → Option String
map_decimal none = none
map_decimal (some n) = some (decimal n)

unfoldable pub report_configuration : AppState → List String
unfolding decimal
report_configuration state =
    ("  Virgin volume:  " <> state.virgin)
    ∷ ("  Scratch volume: " <> state.scratch)
    ∷ ("  RAM disk:       " <> state.ramdisk)
    ∷ ("  Mount point:    " <> state.mount_point)
    ∷ (optional "  Mount options:  " state.mount_options
        ++ ("  Granularity:    " <> decimal state.granularity <> " bytes")
          ∷ ("  dm-era name:    " <> state.dm_era_name)
          ∷ [])

-- What the state says, what the mount table says, and whether the device is there.
unfoldable pub report_runtime : AppState → Bool → Bool → List String
unfolding decimal
report_runtime state device_exists actually_mounted =
    if state.is_mounted
    then "  Mounted: yes (state)"
      ∷ (if actually_mounted
          then "  Mounted: yes (actual)"
          else "  Mounted: NO (actual) - state inconsistent!")
      ∷ (if device_exists
          then "  dm-era device: active"
          else "  dm-era device: MISSING (state inconsistent, possible crash)")
      ∷ optional "  Current era: " (map_decimal state.current_era)
    else "  Mounted: no (state)"
      ∷ (if actually_mounted
          then "  Mounted: YES (actual) - state inconsistent!"
          else "  Mounted: no (actual)")
      ∷ (if device_exists
          then "  dm-era device: EXISTS (state inconsistent, stale device?)"
          else "  dm-era device: none")
      ∷ []

unfoldable pub report_state : String → AppState → Bool → Bool → List String
unfolding report_configuration report_runtime hex_encode
report_state state_path state device_exists actually_mounted =
    ("schelk status"
      ∷ "============="
      ∷ ""
      ∷ ("State file: " <> state_path)
      ∷ ""
      ∷ "Configuration:"
      ∷ [])
    ++ report_configuration state
    ++ ("" ∷ "Runtime status:" ∷ [])
    ++ report_runtime state device_exists actually_mounted
    ++ ""
      ∷ "Volume checksum:"
      ∷ ("  Superblock hash: " <> hex_encode state.virgin_superblock_hash)
      ∷ []

abbrev pub not_initialized_report : List String
not_initialized_report =
    "schelk is not initialized." ∷ ""
    ∷ "Run 'schelk init-new' or 'schelk init-from' to configure schelk with your volumes." ∷ []

module _ (m : Machine) where
  open m use {World}

  abbrev answered : Result Error Bool → Bool
  answered (ok b) = b
  answered (err e) = false

  -- unwrap_or(false)
  unfoldable pub or_false : M World Bool → M World Bool
  or_false c w = let (result, w') = c w in pure (answered result) w'

  abbrev pub report : Option AppState → M World (List String)
  report none = pure not_initialized_report
  report (some state) = do
    device_exists ← or_false (Dmera.exists m state.dm_era_name)
    actually_mounted ← or_false (is_mounted m state.mount_point)
    pure (report_state m.state_path state device_exists actually_mounted)

  unfoldable pub run : M World (List String)
  unfolding load or_false report_state
  run = load m >>= report
