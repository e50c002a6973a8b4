-- ===== src/Relay/Calling.antt =====
-- packages/common/src/relay/calling
pub mod Params
pub mod Component
pub mod Call
pub mod Shorthands
pub mod Control
pub mod Registry
