-- ===== src/Crc.antt =====
-- Checksums: src/crc.c (CRC-16 of nodelists) and src/binkp/crc.c (CRC-32 of files sent over
-- binkp). Each works from a table of 256 words; the children state the bit by bit definition
-- and relate the two.
pub mod Table
pub mod Crc16
pub mod Crc32
pub mod Serial16
pub mod Serial32
mod Tests
