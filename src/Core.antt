-- ===== src/Core.antt =====
-- crates/notch-core: the session core.
pub mod Error
pub mod Validation
pub mod Transitions
pub mod Registry
pub mod Stream
pub mod Alerts
pub mod Repository
pub mod App
