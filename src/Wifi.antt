-- ===== src/Wifi.antt =====
-- libraries/WiFi/src: the datagram socket `Udp`, the receive buffer of a connection, `Rx`, and the
-- choice of an access point, `Multi`.
pub mod Udp
pub mod Rx
pub mod Multi
