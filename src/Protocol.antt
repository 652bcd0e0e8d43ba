-- ===== src/Protocol.antt =====
-- crates/notch-protocol: the wire types of protocol version 1 and their limits.
mod Float
mod Enums
mod Metrics
mod Session
mod Stream
mod Decision
mod Limits
unfoldable pub use Float.*
pub use Enums.*
pub use Metrics.*
pub use Session.*
pub use Stream.*
pub use Decision.*
pub use Limits.*
