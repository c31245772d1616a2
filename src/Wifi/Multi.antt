-- ===== src/Wifi/Multi.antt =====
-- libraries/WiFi/src/WiFiMulti.cpp: the known access points, and the choice among the networks found.
pub mod Choice
pub mod Strongest
mod Tests
