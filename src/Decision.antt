-- ===== src/Decision.antt =====
-- crates/notch-decision, and the Claude Code answers of crates/notch-adapters/claude-code.
pub mod Types
pub mod Version
pub mod Claude
pub mod Adapter
pub mod Store
pub mod Broker
pub mod Answers
