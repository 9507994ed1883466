-- ===== src/Ip.antt =====
-- src/lib/ip.c and src/include/ip2.h: addresses as text, routes and interfaces, and packets.
pub mod Text
pub mod Route
pub mod Packet
