-- ===== src/Metrics.antt =====
-- crates/notch-metrics: which processes belong to which session, and what they use.
pub mod Model
pub mod History
pub mod Graph
pub mod Quality
pub mod Arithmetic
pub mod Aggregate
pub mod Total
