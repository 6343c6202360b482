-- ===== src/Net.antt =====
-- src/net: packets and their byte format, sessions and connections.
pub mod Packet
pub mod Codec
pub mod Listener
pub mod Protocol
pub mod Delivery
pub mod Session
pub mod Connections
pub mod Connection
