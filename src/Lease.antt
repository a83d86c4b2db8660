-- ===== src/Lease.antt =====
-- app/runtime/execution_lease: leases that permit work on planned work items, with generations.
pub mod Domain
pub mod Policy
pub mod State
pub mod Evidence
pub mod Resolve
mod Scenario
mod Witnesses
mod EvidenceWitnesses
pub mod Serialization
