-- ===== src/UploadTask.antt =====
-- UploadTaskController of web/src/utils/uploadTask.ts: a pool of workers that uploads a list of files.
--
-- The class is single-threaded, so a run is a sequence of the stretches of code between two awaits.
-- Each such stretch is one function here (in Control), and `step` (in Steps) makes one of them.
pub mod Defs
pub mod Items
pub mod Control
pub mod Steps
mod Taking
mod Pool
mod Slots
mod Invariant
mod Reachable
mod Settled
mod Consent
mod Overwrites
mod Progress
mod WorkLeft
mod Ending
mod Examples
