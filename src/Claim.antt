-- ===== src/Claim.antt =====
-- app/runtime/work_claim: claims of planned work items, with generations and fences.
pub mod Domain
pub mod Evidence
pub mod Policy
pub mod Serialization
pub mod Repository
pub mod State
pub mod Replay
pub mod Service
pub mod System
mod Scenario
mod Witnesses
mod DecisionWitnesses
mod RecordWitnesses
mod SampleEvents
