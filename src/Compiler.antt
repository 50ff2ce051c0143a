-- ===== src/Compiler.antt =====
-- The compiler estate_cc, src/bin.
pub mod Data
pub mod Free
pub mod Parser
pub mod Check
pub mod OutGc
pub mod OutGi
pub mod Accepted
pub mod Compiled
pub mod Main
mod Samples
mod Tests
mod GcTests
mod MainTests
mod Checks
mod AcceptedTests
