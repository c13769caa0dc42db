-- ===== src/Pins.antt =====
-- The I/O pins: src/iopin.c, src/pwm.c, src/adc.c and src/pins.c over the AVR's registers. A port's PIN,
-- DDR and PORT register are bytes, indexed by the high half of an iopin_t; the low half is the bit. The
-- conversion of the ADC is the parameter `sample`, its result for a channel. Indexing the tables of 20
-- pins further out is undefined in C: `none`.
pub mod Ports
pub mod Pwm
pub mod Adc
pub mod Modes
pub mod PortLaws
pub mod ModeLaws
