-- ===== src/Selection.antt =====
-- app/runtime/worker_selection: workers that may take planned work, ranked by evidence.
pub mod Domain
pub mod Serialization
pub mod Policy
pub mod Evaluator
pub mod History
pub mod Service
mod Scenario
mod Witnesses
