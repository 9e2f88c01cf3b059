-- ===== src/Rollup.antt =====
-- internal/model: the rollup state machine that the HTTP handlers, the inspector and the inputter
-- share. A mutex makes each operation of `Operations` one step.
pub mod State
pub mod Outputs
pub mod Operations
pub mod Steps
pub mod Validity
mod Closing
pub mod Invariant
pub mod Dispatch
pub mod Stuck
