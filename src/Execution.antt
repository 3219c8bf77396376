-- ===== src/Execution.antt =====
-- src/traceguard/control/execution.py: the authority that issues and validates execution grants.
pub mod Amount
pub mod Issuer
pub mod Register
pub mod Issue
pub mod Tasks
pub mod Validated
pub mod Issued
pub mod Frames
pub mod RoundTrip
pub mod Calls
pub mod Kept
pub mod Replays
pub mod Epochs
mod Tests
mod ReplayTests
