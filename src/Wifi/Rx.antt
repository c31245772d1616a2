-- ===== src/Wifi/Rx.antt =====
-- libraries/WiFi/src/WiFiClient.cpp: WiFiClientRxBuffer, the bytes that have been received on a
-- connection and not been read. `State` is the object and its filling, `Read` its reading.
pub mod State
pub mod Read
pub mod Fill
pub mod Window
pub mod Stream
mod Tests
