-- ===== src/Pins/Pwm.antt =====
-- src/pwm.c: the timer registers of the five PWM pins.
use phatio.Prelude.{ℕ, Option, none, some, List, get_or, set, ltb, ◌==◌, if◌then◌else◌}
use phatio.Prelude.Bytes.{set_bit, clear_bit}
use phatio.Pins.Ports.{Registers, get_iopin, set_out, set_dir}

-- TCCR1A, TCCR3A, TCCR4A and OCR1AL, OCR1BL, OCR1CL, OCR3AL, OCR4A
pub record Timers : Type 0 where
  pub tccr : List ℕ
  pub ocr : List ℕ

pub record Channel : Type 0 where
  pub ocr : ℕ
  pub tccr : ℕ
  pub tccrbit : ℕ

-- the switch of `pwm`: COM1A1 is bit 7, COM1B1 5, COM1C1 3, COM3A1 7, COM4A1 7
unfoldable pub channel : ℕ → Option Channel
channel pinid =
    if pinid == 10
    then some (record { ocr = 0; tccr = 0; tccrbit = 7 })
    else if pinid == 9
    then some (record { ocr = 1; tccr = 0; tccrbit = 5 })
    else if pinid == 8
    then some (record { ocr = 2; tccr = 0; tccrbit = 3 })
    else if pinid == 7
    then some (record { ocr = 3; tccr = 1; tccrbit = 7 })
    else if pinid == 6
    then some (record { ocr = 4; tccr = 2; tccrbit = 7 })
    else none

pub record Pwm : Type 0 where
  pub registers : Registers
  pub timers : Timers

-- `pwm` on a channel of the pin `iopin`; `value` is an int16_t as its bit pattern
unfoldable pub drive : Channel → ℕ → ℕ → Pwm → Pwm
unfolding set_bit clear_bit set_out set_dir
drive ch iopin value p =
    let tccr = p.timers.tccr in
    if value == 0
    then record {
      timers = record p.timers {
        tccr = set tccr ch.tccr (clear_bit (get_or tccr ch.tccr 0) ch.tccrbit);
      };
      registers = set_out iopin 0 p.registers;
    }
    else if ltb value 32768
    then record {
      timers = record {
        tccr = set tccr ch.tccr (set_bit (get_or tccr ch.tccr 0) ch.tccrbit);
        ocr = set p.timers.ocr ch.ocr (if ltb 0xff value then 0xff else value);
      };
      registers = set_dir iopin 1 p.registers;
    }
    else p

-- The result is `*ocr`, and 0 for a pin without PWM. The five pins are in the table of pins.
unfoldable pub pwm : ℕ → ℕ → Pwm → ℕ × Pwm
unfolding channel drive get_iopin
pwm pinid value p = elim (channel pinid) [
  | none ↦ (0, p)
  | some ch ↦ elim (get_iopin pinid) [
    | none ↦ (0, p)
    | some iopin ↦ let p' = drive ch iopin value p in (get_or p'.timers.ocr ch.ocr 0, p')
  ]
]
