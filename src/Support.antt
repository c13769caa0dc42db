-- ===== src/Support.antt =====
-- The programs under support/ that run on the developer's machine.
pub mod CrcHexfile
pub mod MakeFs
pub mod BootImage
