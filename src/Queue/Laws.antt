-- ===== src/Queue/Laws.antt =====
-- What holds of the transfer queue after every history.
pub mod Held
pub mod CalledOff
pub mod Queued
pub mod Twice
pub mod Sized
pub mod Swept
pub mod Retired
