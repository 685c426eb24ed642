-- ===== src/Tools.antt =====
-- packages/domain/recoverai_domain/tools: the tools that act on a recovery case, the service that
-- runs them under the policy, once per idempotency key, and the approvals that let a held action go.
pub mod Permissions
pub mod Registry
pub mod Schemas
pub mod Idempotency
pub mod Provider
pub mod Handlers
pub mod Execution
pub mod Approvals
pub mod Keeps
pub mod Change
pub mod Once
pub mod Gates
