-- ===== src/Optimizer.antt =====
-- packages/domain/recoverai_domain/optimizer: the expected recovery value of each candidate action
-- and the choice among them.
pub mod Config
pub mod Erv
pub mod Ranking
