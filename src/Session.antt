-- ===== src/Session.antt =====
-- The state that is stored from one run of the program to the next.
pub mod Apart
pub mod Stored
pub mod PowerLoss
pub mod Durable
pub mod Spec
pub mod Runs
pub mod Setup
pub mod Outcomes
pub mod Main
pub mod Excluded
pub mod Loads
pub mod Cycle
pub mod Cycles
pub mod Initial
pub mod Rebuild
pub mod Written
pub mod Frame
pub mod Everyday
pub mod Golden
