-- ===== src/Network.antt =====
-- network/src/lib.rs and server/src/network.rs: Wake-on-LAN, Wi-Fi and Ethernet.
pub mod Error
pub mod Mac
pub mod Wol
pub mod Netmask
pub mod Wifi
pub mod Ethernet
pub mod Handlers
mod Tests
