-- ===== src/Tests.antt =====
-- Runs of the theorems at concrete inputs: the storage and the rest of the firmware.
pub mod Storage
pub mod Control
pub mod Board
pub mod Files
pub mod Scripts
pub mod Boot
pub mod Image
