-- ===== src/Control/Actions.antt =====
-- `evaluate` and `resolve_review` of src/traceguard/control/service.py.
pub mod Decide
pub mod Evaluate
pub mod Resolve
pub mod Replay
pub mod Reviews
