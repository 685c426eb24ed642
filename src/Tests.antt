-- ===== src/Tests.antt =====
-- Concrete inputs of the services, and the theorems applied to them.
pub mod Data
pub mod Lifecycle
pub mod Verifying
pub mod Processing
pub mod PolicyRules
pub mod Amounts
pub mod Tooling
pub mod Events
