-- ===== src/Dns.antt =====
-- libraries/DNSServer/src: the server that answers every query for its domain with one address.
-- `Message` reads a query, `Server` is the object and its replies.
pub mod Message
pub mod Server
pub mod Rounds
pub mod Names
pub mod Replies
mod Tests
