-- ===== src/Http.antt =====
-- libraries/HTTPClient/src/HTTPClient.cpp: `Url` is the parts of a URL. `Transfer` is the transfer of a response's contents to a stream;
-- `Blocks` and `Composed` say what arrives there.
pub mod Url
pub mod Transfer
pub mod Blocks
pub mod Composed
pub mod Stalls
mod Tests
