-- ===== src/Ledger/Change.antt =====
-- The specification of the ledger of src/traceguard/ledger.py: the life of one row as a step
-- relation, and the changes that one operation may make to the table.
pub mod Row
pub mod Invariant
pub mod Budget
pub mod Operations
