-- ===== src/Disk.antt =====
-- src/disk.c: which blocks are handled or watched, and the reads and writes that the SCSI layer asks
-- for. Disk/State has the tables; Disk/Handlers the handlers and watchers; Disk/Transfer the transfers.
pub mod State
pub mod Handlers
pub mod Transfer
pub mod Lookup
pub mod Writes
