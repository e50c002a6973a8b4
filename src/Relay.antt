-- ===== src/Relay.antt =====
-- packages/common/src/relay: the Relay client's services.
pub mod Constants
pub mod Devices
pub mod Media
pub mod Calling
pub mod Contexts
pub mod Messaging
pub mod Consumer
pub mod Broadcasts
