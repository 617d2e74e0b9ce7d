-- ===== src/Permissions.antt =====
-- pkg/permissions: the grants that a recipe node delegates, and how they nest.
pub mod Errors
pub mod Grant
pub mod Overrides
pub mod Scope
pub mod Authority
pub mod Confinement
pub mod Denials
pub mod Access
pub mod Inputs
mod Tests
