-- ===== src/Preferences.antt =====
-- libraries/Preferences/src: typed values under keys of the non-volatile storage. `Store` is what it
-- calls of the platform, `State` the object, `Numbers` the integers, `Blobs` strings and byte blocks.
pub mod Store
pub mod State
pub mod Numbers
pub mod Blobs
pub mod Laws
pub mod Typed
mod Tests
