-- ===== src/Util.antt =====
-- src/lib/util.c: byte order, the Internet checksum, and the linked queue.
pub mod Endian
pub mod Packed
pub mod Checksum
pub mod Queue
pub mod Hexdump
