-- ===== src/Selection/Domain.antt =====
-- app/runtime/worker_selection/domain.py and the record of ports.py.
mod Types
mod Inputs
pub mod Order
unfoldable pub use Types.*
unfoldable pub use Inputs.*
