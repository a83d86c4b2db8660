-- ===== src/Dispatch/Evidence.antt =====
-- app/runtime/dispatch_decision/evidence.py: plans, selections, readiness and leases as evidence, and
-- their sources.
mod Types
mod Build
mod Validate
unfoldable pub use Types.*
unfoldable pub use Build.*
unfoldable pub use Validate.*
