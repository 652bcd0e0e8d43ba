-- ===== src/Remote.antt =====
-- crates/notch-remote/src: the sessions with the relays on remote hosts.
pub mod Protocol
pub mod Reconnect
pub mod Transport
pub mod Session
pub mod Manager
pub mod HookNames
pub mod HookIngest
pub mod Supervisor
