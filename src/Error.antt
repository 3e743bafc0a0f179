-- ===== src/Error.antt =====
-- The errors that the program reports: one constructor for each message, of src/error.rs and of the
-- `eyre!` calls. The context that `wrap_err` adds to a message is not kept.
use schelk.Base.{ℕ, ℤ}

pub data Error : Type 0 where
  -- src/error.rs
  not_initialized volume_mismatch already_mounted : Error
  -- src/io/uring.rs; `hung` stands for a call that does not return
  io_failed : ℕ → Error
  short_read short_write : ℕ → ℤ → Error
  queue_full submit_failed misaligned panicked device_in_use hung : Error
  pool_overflow invalid_layout out_of_memory : Error
  -- src/env.rs, src/confirm.rs, src/cmd.rs, src/state.rs
  requires_root cancelled_by_user command_failed not_found already_running corrupted_state : Error
  -- src/dmera.rs
  empty_name leading_dash invalid_characters : Error
  xml_parse_error invalid_value missing_attribute invalid_utf8 : Error
  -- src/volume.rs, src/ramdisk.rs, src/mount.rs
  not_a_block_device unknown_size ramdisk_too_small target_is_busy unmount_failed : Error
  -- src/commands
  granularity_zero granularity_unaligned same_device size_mismatch : Error
  mountpoint_in_use device_exists device_missing not_mounted : Error
  -- any other failed system call
  os_error : Error
