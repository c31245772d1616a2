-- ===== src/Eeprom.antt =====
-- libraries/EEPROM/src: a byte array kept in the non-volatile storage. `Nvs` is what it calls of the
-- platform, `State` the object and its single bytes, `Values` the typed values, `Text` the strings,
-- `Begin` the loading and resizing.
pub mod Nvs
pub mod State
pub mod Values
pub mod Text
pub mod Begin
pub mod Laws
pub mod Durable
pub mod Resize
pub mod Strings
mod Tests
