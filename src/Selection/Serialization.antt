-- ===== src/Selection/Serialization.antt =====
-- app/runtime/worker_selection/serialization.py: the canonical hash of a document. The keys of a
-- document are sorted by `json.dumps`, and its times are aware.
mod Documents
unfoldable pub use Documents.*
