-- ===== src/Policy.antt =====
-- tumba_sdn/controller/policy_engine.py: the zero-trust policy engine, its state, its configuration
-- and its handlers. `Policy/Rules` builds the messages, `Policy/Install` sends them.
-- `hub.spawn` puts the delayed installation into `spawned`, from which the scheduler takes it. The
-- file that `_log_event` appends to is `events`; the clock readings in it are left out.
pub mod Rules
pub mod Install
pub mod Counts
pub mod Table
pub mod Entries
pub mod Decisions
pub mod Exam
mod Tests
