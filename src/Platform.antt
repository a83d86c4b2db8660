-- ===== src/Platform.antt =====
-- What the runtime takes from Python's standard library, and the canonical values that it hashes.
-- `unicodedata.normalize`, `datetime.isoformat`, `json.dumps`, `str.encode` and `hashlib.sha256` are
-- parameters, the fields of `Interpreter`.
mod Values
mod Canonical
mod Checks
mod Reference
pub mod Evidence
mod Laws
pub mod TextOrder
pub mod Settled
pub mod Plain
unfoldable pub use Values.*
unfoldable pub use Canonical.*
unfoldable pub use Checks.*
unfoldable pub use Reference.*
unfoldable pub use Evidence.*
pub use Laws.{InterpreterLaws, is_ascii, nfc-sha256, nfc-namespaced_digest}
