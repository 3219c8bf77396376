-- ===== src/Ledger.antt =====
-- src/traceguard/ledger.py: the transactional ledger of reservations.
pub mod Rows
pub mod Store
pub mod Reserve
pub mod Settle
pub mod Perform
pub mod Change
pub mod Runs
mod Tests
