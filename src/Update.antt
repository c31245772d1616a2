-- ===== src/Update.antt =====
-- libraries/Update/src: the firmware updater `UpdateClass`. `Device` is what it calls of the
-- platform, `State` the object, `Begin`, `Buffer`, `Write`, `Stream` and `Finish` its methods.
pub mod Device
pub mod State
pub mod Begin
pub mod Buffer
pub mod Write
pub mod Finish
pub mod Rounds
pub mod Image
pub mod Safety
mod Tests
