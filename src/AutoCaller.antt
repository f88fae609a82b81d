-- ===== src/AutoCaller.antt =====
-- autocaller/xcall: the auto-caller that executes the calls and rollbacks of xcall messages.
pub mod Task
pub mod Repository
pub mod Memory
pub mod Event
pub mod Params
pub mod CallRow
pub mod Call
pub mod RollbackRow
pub mod Rollback
pub mod Finalize
