-- ===== src/Dispatch.antt =====
-- app/runtime/dispatch_decision: whether planned work may be offered to a selected worker.
pub mod Domain
pub mod Serialization
pub mod Evidence
pub mod Policy
pub mod Repository
pub mod Resolve
pub mod Service
pub mod System
mod Scenario
mod Witnesses
