-- ===== src/Log/Manual.antt =====
-- What the LEDs of src/log.c keep: manual mode, and the course of a flash.
use phatio.Prelude.{
  ℕ, ◌%◌, ◌≤◌, ◌<◌, ◌≡◌, ◌≢◌, refl, ◌∙◌, Bool, true, false, get_or, set, length, get_or-set_self,
  get_or-set_ne, length-set, ◌==◌, Bool-cases, arith, inl, inr, ◌⊎◌,
}
use phatio.Log.Leds.{
  Leds, red, ledstate_off, ledmanual, flash, flash_on, state_of, set_state, light, led_error,
  led_flash, led_step, led_task,
}

abbrev pub lit_of : Leds → ℕ → Bool
lit_of l i = get_or l.lit i false

-- A step for one LED leaves the other alone.
led_step_other :
    (time i j : ℕ) (l : Leds)
    → i ≢ j
    → (state_of (led_step time i l) j ≡ state_of l j) × (lit_of (led_step time i l) j ≡ lit_of l j)
unfolding led_step
led_step_other time i j l ne = ground (
  arith,
  get_or-set_ne l.lit i j true false ne,
  get_or-set_ne l.lit i j false false ne,
  get_or-set_ne l.led_state i j flash_on 0 ne,
  get_or-set_ne l.led_state i j ledstate_off 0 ne,
)

led_step_manual : (time i : ℕ) (l : Leds) → state_of l i ≡ ledmanual → led_step time i l ≡ l
unfolding led_step
led_step_manual time i l m = ground arith

step_kept :
    (time j i : ℕ) (l : Leds)
    → state_of l i ≡ ledmanual
    → (state_of (led_step time j l) i ≡ ledmanual) × (lit_of (led_step time j l) i ≡ lit_of l i)
step_kept time j i l m = elim (Bool-cases (j == i)) [
  | inl same ↦
      let e : j ≡ i = ground arith in
      let stays = led_step_manual time j l (rw e m) in rw stays (m, refl)
  | inr differ ↦ let other = led_step_other time j i l (ground arith) in (other.0 ∙ m, other.1)
]

-- In manual mode an LED is left to the script: no error, no flash and no run of the LED task changes
-- its mode or its light.
pub manual_kept :
    (i state led time : ℕ) (no_led : Bool) (l : Leds)
    → state_of l i ≡ ledmanual
    → (state_of (led_error state l) i ≡ ledmanual)
      × (lit_of (led_error state l) i ≡ lit_of l i)
      × (state_of (led_flash led l) i ≡ ledmanual)
      × (lit_of (led_flash led l) i ≡ lit_of l i)
      × (state_of (led_task no_led time l) i ≡ ledmanual)
      × (lit_of (led_task no_led time l) i ≡ lit_of l i)
unfolding led_error led_flash led_task
manual_kept i state led time no_led l m =
    let one = step_kept time 0 i l m in
    let two = step_kept time 1 i (led_step time 0 l) one.0 in
    (
      error_kept (Bool-cases (red == i)),
      ground arith,
      flash_kept (Bool-cases (led == i)),
      ground arith,
      ground (arith, two, one),
      ground (arith, two, one),
    )
  where
    error_kept : (red == i ≡ true) ⊎ (red == i ≡ false) → state_of (led_error state l) i ≡ ledmanual
    error_kept (inl same) = let e : i ≡ 0 = ground arith in ground arith
    error_kept (inr differ) =
        ground (arith, get_or-set_ne l.led_state red i (state % 256) 0 (ground arith))

    flash_kept : (led == i ≡ true) ⊎ (led == i ≡ false) → state_of (led_flash led l) i ≡ ledmanual
    flash_kept (inl same) = let e : led ≡ i = ground arith in ground arith
    flash_kept (inr differ) = ground (arith, get_or-set_ne l.led_state led i flash 0 (ground arith))

flash_starts :
    (i : ℕ) (l : Leds) → state_of l i ≡ ledstate_off → led_flash i l ≡ set_state l i flash
unfolding led_flash
flash_starts i l off = ground arith

flash_lights :
    (i t : ℕ) (l : Leds)
    → state_of l i ≡ flash
    → t % 64 ≤ 15
    → led_step t i l ≡ set_state (light l i true) i flash_on
unfolding led_step
flash_lights i t l e h = ground arith

flash_ends :
    (i u : ℕ) (l : Leds)
    → state_of l i ≡ flash_on
    → 15 < u % 64
    → led_step u i l ≡ set_state (light l i false) i ledstate_off
unfolding led_step
flash_ends i u l e h = ground arith

-- A flash of an LED that is off lights it at the next task in the first 16 ms of a 64 ms cycle, and
-- the next task later in a cycle puts it out again and leaves it off.
pub led_flash_course :
    (i t u : ℕ) (l : Leds)
    → i < length l.led_state
    → i < length l.lit
    → state_of l i ≡ ledstate_off
    → t % 64 ≤ 15
    → 15 < u % 64
    → (lit_of (led_step t i (led_flash i l)) i ≡ true)
      × (lit_of (led_step u i (led_step t i (led_flash i l))) i ≡ false)
      × (state_of (led_step u i (led_step t i (led_flash i l))) i ≡ ledstate_off)
led_flash_course i t u l hs hl off ht hu =
    rw (started, lit, ended)
      (
        get_or-set_self l.lit i true false hl,
        get_or-set_self (set l.lit i true) i false false (omega (arith, length-set l.lit i true)),
        get_or-set_self (set (set l.led_state i flash) i flash_on) i ledstate_off 0 (
            omega (
              arith,
              length-set l.led_state i flash,
              length-set (set l.led_state i flash) i flash_on,
            )),
      )
  where
    flashing : Leds
    flashing = set_state l i flash

    on : Leds
    on = set_state (light flashing i true) i flash_on

    started : led_flash i l ≡ flashing
    started = flash_starts i l off

    lit : led_step t i flashing ≡ on
    lit = flash_lights i t flashing (get_or-set_self l.led_state i flash 0 hs) ht

    ended : led_step u i on ≡ set_state (light on i false) i ledstate_off
    ended =
        flash_ends i u on
          (get_or-set_self (set l.led_state i flash) i flash_on 0
            (omega (arith, length-set l.led_state i flash)))
          hu
