-- ===== src/Tests.antt =====
-- Runs on concrete inputs, and the theorems at concrete inputs.
mod Frames
mod Delivery
mod Sessions
mod Transports
mod Engines
mod Controls
mod Audios
mod Conversations
mod Pairs
mod Ciphers
mod Videos
mod Sockets
mod Playbacks
mod Platforms
mod Peers
mod Devices
