-- ===== src/Ledger/Runs.antt =====
-- Runs of the ledger of src/traceguard/ledger.py: any calls, by any clients, in any order.
pub mod Safety
pub mod Once
pub mod Release
pub mod Progress
