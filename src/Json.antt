-- ===== src/Json.antt =====
-- JSON values, as the program passes them round (Python's `Any` in arguments and payloads),
-- `redact_value` of src/traceguard/supervisor/redaction.py and `validate_json` of
-- src/traceguard/limits.py. A number is its JSON text, so that 1
-- and 1.0 stay two values.
mod Values
pub mod Redact
pub mod Limits
mod Tests
pub use Values.*
