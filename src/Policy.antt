-- ===== src/Policy.antt =====
-- packages/domain/recoverai_domain/policy_types.py, policy_engine.py and policy_context.py: which
-- recovery actions the policy allows, which of them need a human's approval, and at what risk.
pub mod Words
pub mod Engine
pub mod Context
