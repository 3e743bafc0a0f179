-- ===== src/Commands.antt =====
-- src/commands: the commands, one module each, and what init-new and init-from share.
pub mod InitCommon
pub mod InitNew
pub mod InitFrom
pub mod FullRecover
pub mod Mount
pub mod Recover
pub mod Promote
pub mod Restore
pub mod Status
