-- ===== src/Wal.antt =====
-- The write-ahead log: server/storage/wal, with pkg/ioutil and pkg/crc.
pub mod Bits
pub mod PageWriter
pub mod Frame
pub mod Crc
pub mod Encoder
mod Tests
