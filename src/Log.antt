-- ===== src/Log.antt =====
-- src/log.c: the key buffer in Log/Keys, the two LEDs in Log/Leds. What they show is proved in
-- Log/Queue and Log/Manual.
pub mod Keys
pub mod Leds
pub mod Queue
pub mod Manual
