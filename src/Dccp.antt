-- ===== src/Dccp.antt =====
-- The DCCP transport (app/transport/dccp).
pub mod PacketType
pub mod OptionType
pub mod Types
pub mod Packet
pub mod Read
pub mod Build
pub mod Options
pub mod Handshake
pub mod Congestion
pub mod Transport
mod Tests
