-- ===== src/Arp.antt =====
-- src/lib/arp.c: the table of hardware addresses, and the messages that fill it.
pub mod Cache
pub mod Message
pub mod Resolve
