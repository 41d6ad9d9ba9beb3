-- ===== src/Net.antt =====
-- The network code in net/: the Address Resolution Protocol.
pub mod Packet
pub mod Arp
pub mod Quiet
pub mod Unique
pub mod Stable
pub mod Known
pub mod Learn
