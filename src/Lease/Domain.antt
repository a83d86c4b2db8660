-- ===== src/Lease/Domain.antt =====
-- app/runtime/execution_lease/domain.py and the record of ports.py. `__post_init__` is in the children.
mod Types
mod Permissions
mod Request
mod Event
unfoldable pub use Types.*
unfoldable pub use Permissions.*
unfoldable pub use Request.*
unfoldable pub use Event.*
