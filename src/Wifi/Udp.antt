-- ===== src/Wifi/Udp.antt =====
-- libraries/WiFi/src/WiFiUdp.cpp: the datagram socket. `Net` is what it calls of the platform,
-- `State` the object, opening and closing, `Send` the outgoing datagram, `Receive` the incoming one.
pub mod Net
pub mod State
pub mod Send
pub mod Receive
pub mod Life
pub mod Datagrams
mod Tests
