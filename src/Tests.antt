-- ===== src/Tests.antt =====
-- Tests: the theorems at concrete inputs.
mod Bench
mod Planning
mod Parsing
mod Copying
mod Sessions
mod Reporting
mod Finishing
mod Failing
mod Codec
mod Filing
mod Durable
mod Workshop
mod Cycling
mod Golden
mod Rebuilding
mod Restoring
mod Refusing
mod Adopting
