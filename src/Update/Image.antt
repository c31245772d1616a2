-- ===== src/Update/Image.antt =====
-- What the flash holds while an update runs: the invariant of libraries/Update/src/Updater.cpp.
pub mod Stored
pub mod Flush
pub mod WriteBuffer
pub mod Sector
pub mod Chunk
pub mod Install
