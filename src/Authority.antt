-- ===== src/Authority.antt =====
-- Strict task authority: src/traceguard/policy/kernel.py, authorization.py, effects.py and
-- read_resources.py, over the contracts of src/traceguard/types.py.
pub mod Calls
pub mod Registry
pub mod Grants
pub mod Checks
pub mod Permits
pub mod Reads
pub mod Kernel
pub mod Allowed
pub mod Paid
pub mod Covered
pub mod Omitted
pub mod InScope
pub mod Granting
pub mod Granted
pub mod Valid
pub mod Bound
pub mod Tests
