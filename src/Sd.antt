-- ===== src/Sd.antt =====
-- libraries/SD/src: the block driver of an SD card on an SPI bus. `Tables` and `Crc` are the checksums,
-- `Bus` is what the code calls of the platform, `Command`, `Read` and `Write` the protocol.
pub mod Tables
pub mod Crc
pub mod Xor
pub mod Remainder
pub mod Bus
pub mod Command
pub mod Read
pub mod Write
pub mod Later
pub mod Checked
pub mod Fatfs
mod Tests
