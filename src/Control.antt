-- ===== src/Control.antt =====
-- src/traceguard/control/service.py and models.py: the control plane.
pub mod Models
pub mod Platform
pub mod Plane
pub mod Policies
pub mod Actions
pub mod Audit
pub mod Calls
pub mod Bundles
pub mod Tests
mod ReviewTests
