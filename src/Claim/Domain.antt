-- ===== src/Claim/Domain.antt =====
-- app/runtime/work_claim/domain.py and the record of ports.py. `__post_init__` is in the children.
mod Types
mod Request
mod Event
unfoldable pub use Types.*
unfoldable pub use Request.*
unfoldable pub use Event.*
