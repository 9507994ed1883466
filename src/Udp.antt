-- ===== src/Udp.antt =====
-- src/lib/udp.c: the table of protocol control blocks, datagrams, and the calls of the user.
pub mod Pcb
pub mod Datagram
pub mod User
