-- ===== src/Examples.antt =====
-- Concrete sessions, events and decisions, and what the development's theorems say of them.
pub mod Data
pub mod Sessions
pub mod Streams
pub mod Decisions
pub mod Processes
pub mod Numbers
pub mod Application
pub mod Serving
pub mod Ipc
pub mod Remote
pub mod Versions
