-- ===== src/WebServer.antt =====
-- libraries/WebServer/src: `Url` decodes escaped text, `Upload` takes the file out of a multipart form.
pub mod Url
pub mod Upload
pub mod Decode
pub mod Written
pub mod Payload
pub mod Found
pub mod Response
pub mod Arguments
pub mod Client
pub mod Routes
pub mod Request
mod CoreTests
mod Tests
