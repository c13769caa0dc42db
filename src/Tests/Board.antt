-- ===== src/Tests/Board.antt =====
-- Runs for src/iopin.c, src/pins.c, src/lio_conditions.c and src/char_source.c.
use phatio.Prelude.{
  ℕ, zero, suc, ◌≡◌, ◌<◌, refl, true, some, List, [], ◌∷◌, get_or, replicate, arith,
}
use phatio.Scheduler.{Scheduler, add_triggered_task}
use phatio.Pins.Ports.{Registers, set_out, get_out, set_dir, get_dir}
use phatio.Pins.PortLaws.{IsBank, iopin, pins_independent}
use phatio.Pins.Modes.{Pins, pin_mode, read_pin_mode}
use phatio.Pins.ModeLaws.{read_pin_mode-pin_mode}
use phatio.Conditions.{DigitalCondition, AdcCondition}
use phatio.Conditions.Laws.{
  run_digital, run_adc, add_times, adc_hysteresis, check_digital_condition-edges,
}

abbrev registers : Registers
registers = record { pin = replicate 13 0; ddr = replicate 13 0; port = replicate 13 0 }

zeros-bytes : (n i : ℕ) → get_or {A = ℕ} (replicate n 0) i 0 < 256
zeros-bytes zero i = omega arith
zeros-bytes (suc n) zero = omega arith
zeros-bytes (suc n) (suc i) = zeros-bytes n i

zeros-IsBank : IsBank (replicate 13 0)
zeros-IsBank = record { size = refl; bytes = zeros-bytes 13 }

pins_independent_example :
    (get_out (iopin 9) (set_out (iopin 10) 1 registers) ≡ get_out (iopin 9) registers)
    × (get_dir (iopin 9) (set_dir (iopin 10) 1 registers) ≡ get_dir (iopin 9) registers)
    × (get_dir (iopin 9) (set_out (iopin 10) 1 registers) ≡ get_dir (iopin 9) registers)
    × (get_out (iopin 9) (set_dir (iopin 10) 1 registers) ≡ get_out (iopin 9) registers)
pins_independent_example =
    pins_independent registers 10 9 1 zeros-IsBank zeros-IsBank (omega arith) (omega arith)

abbrev pins : Pins
pins = record {
  modes = replicate 20 b'I';
  board = record {
    registers = registers;
    timers = record { tccr = 0 ∷ 0 ∷ 0 ∷ []; ocr = replicate 5 0 };
  };
  interrupts = true;
}

abbrev out : List ℕ
out = b'o' ∷ b'u' ∷ b't' ∷ 10 ∷ []

read_pin_mode-pin_mode_example :
    (p' : Pins) × (pin_mode 10 out pins ≡ some p')
    × (read_pin_mode 10 p' ≡ some (b'O' ∷ b'U' ∷ b'T' ∷ 0 ∷ 0 ∷ []))
read_pin_mode-pin_mode_example = read_pin_mode-pin_mode 10 out pins (omega arith) refl

abbrev scheduler : Scheduler
scheduler = record {
  time_since_start = 1;
  on_millisecond = true;
  ocr0a = 0;
  tasks = [];
  triggered_tasks = replicate 10 0;
}

abbrev above_500 : AdcCondition
above_500 = record {
  pinid = 0;
  trigger_value = 500;
  limit = 400;
  action = 0x7000;
  triggered_before = true;
  above = true;
}

adc_hysteresis_example :
    (run_adc (450 ∷ 510 ∷ []) above_500 scheduler ≡ (above_500, scheduler))
    × (run_adc (450 ∷ 510 ∷ 390 ∷ 501 ∷ []) above_500 scheduler
        ≡ (above_500, add_triggered_task 0x7000 scheduler))
adc_hysteresis_example =
    adc_hysteresis (450 ∷ 510 ∷ []) 390 501 above_500 scheduler refl refl refl refl refl

abbrev rises : DigitalCondition
rises = record { pin = 0xc0; action = 0x7000; value = 0; trigger_value = 1 }

check_digital_condition-edges_example :
    (run_digital (1 ∷ 1 ∷ 0 ∷ 1 ∷ []) rises scheduler).1 ≡ add_times 2 0x7000 scheduler
check_digital_condition-edges_example =
    check_digital_condition-edges (1 ∷ 1 ∷ 0 ∷ 1 ∷ []) rises scheduler
