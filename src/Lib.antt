-- ===== src/Lib.antt =====
-- ReviveX: the recovery of failed payments, in packages/domain/recoverai_domain.
--
-- A recovery case is a row with a status, an amount at risk and an amount recovered. The processor
-- walks a new case to the policy check, chooses an action by a fixed rule and lets the policy engine
-- decide whether the action is denied, waits for a human or goes on. The verification credits the
-- case when a captured payment matches it. Both change the status through one function, which obeys
-- a table of legal changes and leaves an audit event. The optimizer chooses among candidate actions
-- by their expected recovery value. A tool performs an action: it is
-- asked for by name with a payload and an idempotency key, goes through the same policy, and may be
-- held for an operator to approve or reject. Provider events are stored, normalized and processed;
-- they create payments and cases, and what they queue leads to the processor and the verification.
--
-- The parts and their files:
--   Enums, Errors: packages/db/recoverai_db/enums.py, errors.py, verification_types.py.
--   Models, Models/Audit: the rows of packages/db/recoverai_db/models that the services decide on,
--     and audit.py.
--   Money: money.py, over Python's Decimal as a coefficient and a scale, with the
--     `InvalidOperation` of an amount of more than 28 digits.
--   Settings: recovery_config.py, on converted values.
--   StateMachine: state_machine.py; the table, `assert_legal_transition`, and histories of changes.
--   Session: the database session as a record of tables with one locked case, and services as
--     actions on it that may raise (`Action`); audit_write.py and the queries of the repositories.
--     Session/Change has the relations between the sessions before and after an action, and how
--     they go along the sequencing of actions.
--   Transitions: transitions.py, `transition_case`.
--   Policy/Words, Policy/Engine: policy_types.py and policy_engine.py, `evaluate_action`.
--   Policy/Context: policy_context.py, `build_policy_context`, and `evaluate_and_persist`.
--   Processor: processor.py, `process_locked_case`.
--   Verification/Evaluate, Verification/Service: verification.py, `_evaluate` and `verify_case`.
--   ToolWords, Models/ToolRows: the tools' names, payloads, results and rows.
--   Tools: packages/domain/recoverai_domain/tools. Permissions, Registry, Schemas and Idempotency are
--     the files of these names, Provider what is asked of packages/providers, Handlers the functions
--     of handlers.py with `apply_case_outcome`, Execution `ToolExecutionService` with its checks
--     (Guards), rows (Rows) and `_run_after_idempotency` (Run), and Approvals `ApprovalService`.
--   Models/EventRows, Ingestion: ingestion.py, which stores a provider event once.
--   Normalize: normalize.py and events.py.
--   Processing/Payments, Processing/Cases, Processing: processing.py, which updates the payment of an
--     event, opens or finds its case and gives the jobs that follow.
--   Optimizer/Config, Optimizer/Erv, Optimizer/Ranking: optimizer/config.py, erv.py, ranking.py.
--   History: runs of the services on one case, in any order and with any arguments.
--   Tests: concrete inputs.
-- The other child modules hold the proofs, each named for what it is about.
--
-- Conventions. Identifiers and times in seconds are natural numbers; amounts in rows are whole
-- cents, as the columns are NUMERIC(18, 2) with a check against negative values, and where the
-- source subtracts, the model compares first and raises what `as_money` raises. An enum stands for
-- its text. An exception is a result `err`, and what was written to the session before it stays, as
-- the rollback is the caller's. A window or grace that the source subtracts from a time is added on
-- the other side of the comparison. The loops are over fixed or finite lists and need no fuel.
--
-- Boundaries. One case is locked during a call, and its row is changed by nothing else then, as
-- `SELECT ... FOR UPDATE` has it. Between calls time passes and payments are added; a payment row
-- that is there is not changed, so a later refund is outside. Clocks read within one call give one
-- time. Sessions follow each other: a row that a search did not find is not inserted by another
-- session before this one inserts it. The payment provider, the inference of probabilities, the
-- digests that make identifiers and the queue are an `Environment`, functions that the theorems hold
-- for all of. A text of a payload that is read as a number or a time stands with what it reads as,
-- and one of blanks only is not told from a missing one; the amounts of events are whole cents, not
-- negative. Left out are texts that are only shown (summaries, metadata that no code reads), the
-- public dictionaries, reading the environment, `sanitize_payload`, the timing of calls, the row of
-- a prediction, the dispatch of follow-up jobs, the agents, the optimizer's service, the simulator,
-- the evaluation package, the API, the worker and the web interface.
pub mod Prelude
pub mod Enums
pub mod Errors
pub mod Money
pub mod Settings
pub mod Models
pub mod StateMachine
pub mod Policy
pub mod Session
pub mod ToolWords
pub mod Ingestion
pub mod Normalize
pub mod Processing
pub mod Tools
pub mod Transitions
pub mod Optimizer
pub mod Processor
pub mod Verification
pub mod History
pub mod Tests
