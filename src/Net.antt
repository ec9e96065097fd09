-- ===== src/Net.antt =====
-- kernel/drivers/net: Ethernet, ARP, IPv4 and ICMP.
pub mod Order
pub mod Swap
pub mod Checksum
pub mod Device
pub mod Ethernet
pub mod Arp
pub mod Cache
pub mod Ipv4
pub mod Receive
pub mod Loopback
pub mod Resolve
mod Tests
