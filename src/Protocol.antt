-- ===== src/Protocol.antt =====
-- internal/protocol: one parser to a module.
pub mod Ethernet
pub mod Arp
pub mod Ipv4
pub mod Ipv6
pub mod Udp
pub mod Tcp
pub mod Icmpv6
pub mod Dhcpv4
pub mod Lldp
