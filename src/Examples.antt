-- ===== src/Examples.antt =====
-- Runs of the theorems at concrete inputs.
mod Handlers
mod Sessions
mod Relays
mod Webrtc
mod Sdp
mod Browser
mod Verto
mod Media
mod Params
mod Requests
mod Streams
mod Conference
mod Controls
mod Deliveries
