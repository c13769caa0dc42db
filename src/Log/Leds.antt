-- ===== src/Log/Leds.antt =====
-- The LEDs of src/log.c. A state is an int8_t as its bit pattern below 256. `lit` is what the LED pins
-- were last set to by `LED_ON` and `LED_OFF`.
use phatio.Prelude.{
  ℕ, ◌-◌, ◌*◌, ◌%◌, ◌^◌, Bool, true, false, List, get_or, set, ltb, leb, ◌==◌, if◌then◌else◌,
}

pub record Leds : Type 0 where
  pub led_state : List ℕ
  pub lit : List Bool

abbrev pub red : ℕ
red = 0

abbrev pub green : ℕ
green = 1

abbrev pub ledstate_off : ℕ
ledstate_off = 0

abbrev pub ledmanual : ℕ
ledmanual = 50

abbrev pub ledon : ℕ
ledon = 100

-- FLASH is -1, FLASH_ON is -2
abbrev pub flash : ℕ
flash = 255

abbrev pub flash_on : ℕ
flash_on = 254

abbrev pub state_of : Leds → ℕ → ℕ
state_of l i = get_or l.led_state i 0

abbrev pub set_state : Leds → ℕ → ℕ → Leds
set_state l i v = record l { led_state = set l.led_state i v }

abbrev pub light : Leds → ℕ → Bool → Leds
light l i v = record l { lit = set l.lit i v }

unfoldable pub led_error : ℕ → Leds → Leds
led_error state l = if state_of l red == ledmanual then l else set_state l red (state % 256)

unfoldable pub led_flash : ℕ → Leds → Leds
led_flash led l = if state_of l led == ledstate_off then set_state l led flash else l

unfoldable pub led_mode : ℕ → ℕ → Leds → Leds
led_mode led mode l = set_state l led (mode % 256)

-- `led_state[i] * 200` as the uint32_t that it is compared as
abbrev pub blink_limit : ℕ → ℕ
blink_limit state = if ltb state 128 then state * 200 else 2 ^ 32 - (256 - state) * 200

-- `time & FLASH_CYCLE` with the mask 0x3F
abbrev pub in_cycle : ℕ → ℕ
in_cycle time = time % 64

-- the switch of `led_task` for one LED
unfoldable pub led_step : ℕ → ℕ → Leds → Leds
led_step time i l =
    let state = state_of l i in
    if state == ledmanual
    then l
    else if state == ledon
    then light l i true
    else if state == ledstate_off
    then light l i false
    else if state == flash
    then if leb (in_cycle time) 15 then set_state (light l i true) i flash_on else l
    else if state == flash_on
    then if ltb 15 (in_cycle time) then set_state (light l i false) i ledstate_off else l
    else if ltb (time % 200) 100
    then light l i false
    else if ltb (time % 1000) (blink_limit state)
    then light l i true
    else l

-- The flag is the value of `get_bool_config(LIO_NO_LED)`.
unfoldable pub led_task : Bool → ℕ → Leds → Leds
unfolding led_step
led_task no_led time l = if no_led then l else led_step time 1 (led_step time 0 l)
