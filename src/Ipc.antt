-- ===== src/Ipc.antt =====
-- crates/notch-ipc/src: the messages of the local socket, their frames, and the spool.
pub mod Error
pub mod Message
pub mod TerminalId
pub mod Wire
pub mod Framing
pub mod Spool
