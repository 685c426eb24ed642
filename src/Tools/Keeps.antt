-- ===== src/Tools/Keeps.antt =====
-- What the tools of packages/domain/recoverai_domain/tools may do to the session, for every relation
-- between sessions that allows new rows, payments among them, and the changes of status that tools
-- make.
pub mod Tables
pub mod Handlers
pub mod Runs
pub mod Calls
