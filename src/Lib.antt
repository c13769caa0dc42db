-- ===== src/Lib.antt =====
-- The firmware of the phatIO board, a USB stick that shows its pins as files and runs scripts.
--
-- The parts and how they interact. The host sees a disk: src/scsi_impl.c takes its commands, and passes
-- reads and writes to src/disk.c. There a block that belongs to a file such as io/pins/3 goes to a
-- handler, of src/pins.c or src/log.c, and any other one to the card, src/sd.c. A write to a watched
-- directory is looked through for files that have moved. Files are found by src/fat_impl.c. A timer
-- interrupt, src/scheduler.c, runs tasks and queues the expressions that the main loop then runs, as the
-- conditions of src/lio_conditions.c do. Expressions are read from a script of characters and evaluated by
-- src/lio.c. Messages to the host and the two LEDs are in src/log.c. Before all that the boot loader,
-- src/bootloader_sdihex.c, looks on the card for a new program, which support/crc_hexfile.c has named and
-- support/make_fs.c written to the card.
--
-- Which file models which part:
--   Prelude     numbers, Boolean tests, C arrays as lists, bits of a byte
--   Fat         src/fat_impl.c on the struct of src/sd_info.h: `disk_init`, directories and chains
--   ShortName   src/fat_impl.c: `sfn_checksum` and `fat_sfn`
--   Scheduler   src/scheduler.c: periodic tasks, triggered tasks, the timer interrupt
--   Log         src/log.c: Keys for the key buffer, Leds for the LEDs
--   Config      src/config.c: the flags in RAM and EEPROM
--   Pins        src/iopin.c in Ports, src/pwm.c in Pwm, src/adc.c in Adc, src/pins.c in Modes
--   Heap        src/util.c: `data_alloc` and `data_free`
--   Conditions  src/lio_conditions.c
--   CharSource  src/char_source.c and src/file_char_source.c
--   Lio         src/lio.c: Lexer and Reader for `next_token` and `next_expression`, Syntax, Values and Eval
--               for evaluation; Basics is src/lio_basics.c, Variables and Names are
--               src/lio_references.c, Flash is `store_expression` of src/lio_run.c; Ends and
--               Arithmetic hold theorems on them
--   Keyboard    src/keyboard.c
--   Scsi        src/scsi_impl.c
--   Sd          src/sd.c, with its start in Sd.Init
--   Disk        src/disk.c: State, Handlers and Transfer
--   Boot        src/bootloader_sdihex.c: Card for what is read of the card
--   Support     CrcHexfile is support/crc_hexfile.c; MakeFs is support/make_fs.c, with its `main` in
--               MakeFs.Tree; BootImage joins them with the boot loader
--   Tests       runs at concrete inputs
-- A definition has the name of the function, macro or struct that it translates. Global variables are
-- fields of a record of their part, and a function takes that record and gives it back. The modules that
-- hold theorems are named for what they prove.
--
-- Numbers are natural numbers with the wrap-around of their C type written out, for an AVR on which `int`
-- has 16 bits. A negative number is its bit pattern. `none` is behaviour that C leaves undefined, or the
-- null pointer, as each file says.
--
-- Parameters stand for what is outside: the bus to the card, the blocks of the card, analogue samples,
-- the effect of a handler, of a C function called by its pointer and of a stored expression, the clock,
-- `sscanf` and `sprintf` on numbers, `_crc16_update`, the time of day, the files of the host, and the bytes
-- of the structs of the LUFA library.
--
-- Fuel: the loop over a directory's blocks takes fuel, since a chain of clusters can be circular. One
-- step more than the directory has blocks is enough. The evaluator of scripts takes a unit for each call
-- and each round of a loop. Each list needs one test of the clock, which ends the script after 2 seconds:
-- one more than two for each reading of the clock in that time is enough, as long as the clock goes on. It
-- does not where interrupts are disabled, and there is no limit after `import`. The reader of scripts takes a unit for each character, and a block of keys one for each round,
-- which goes on by a character at least. The boot loader and its tool take a round for each character of a
-- file at most. Every other loop has a bound in the code.
--
-- Sizes: flash is read as the 28 KB before the boot loader where a program is loaded, and the tools of
-- support/ are modelled for what fits into their buffers of 32,000,000 bytes.
--
-- Not modelled: the table of the built-ins, which is a parameter, `runfile_changed`, the built-ins for
-- input and output, USB callbacks and descriptors, SPI registers, the start of the boot loader, and the
-- input and output of the tools of support/. In the files that are modelled, `servo` and `pulse_pin`,
-- `iodir_init` and the list of devices, the sizes of items in src/lio.c, and what rests on the formats of
-- the C library (`pin_value_handler`, `status_handler`) are left out.
pub mod Prelude
pub mod Fat
pub mod ShortName
pub mod Scheduler
pub mod Log
pub mod Config
pub mod Pins
pub mod Heap
pub mod Conditions
pub mod CharSource
pub mod Lio
pub mod Keyboard
pub mod Scsi
pub mod Sd
pub mod Disk
pub mod Boot
pub mod Support
pub mod Tests
