-- ===== src/Sd.antt =====
-- The SD card driver of src/sd.c. The bus is the parameter: `exchange` sends a byte and gives the byte
-- received (`send_spi`, `sd_read_byte` and `sd_write_byte` of src/spi.c and src/sd.h), `select` and
-- `deselect` set the card's select line. Delays and the SPI control registers are not modelled.
pub mod Bus
pub mod Init
pub mod Laws
pub mod Size
use phatio.Prelude.{
  ℕ, zero, suc, ◌+◌, ◌-◌, ◌*◌, ◌/◌, ◌%◌, ◌^◌, Bool, true, false, not, ◌&&◌, ◌||◌, List, [], ◌∷◌,
  bit_and, ltb, ◌==◌, if◌then◌else◌,
}
use phatio.Fat.{Disk}
use phatio.Sd.Bus.{M, ◌>>=◌, ◌>>◌, pure}

-- `sd_byte_addressable(fs)`
abbrev pub byte_addressable : Disk → Bool
byte_addressable sd = not (bit_and sd.sd_type 0x04 == 0)

-- `address <<= 9` on a uint32_t
abbrev pub card_address : ℕ → Disk → ℕ
card_address address sd = if byte_addressable sd then (address * 512) % 2 ^ 32 else address

-- `break` with the value read, or go on
abbrev pub stop_or : {S : Type 0} → Bool → ℕ → M S ℕ → M S ℕ
stop_or true r more = pure r
stop_or false r more = more

module _ {S : Type 0} (exchange : ℕ → M S ℕ) (select deselect : M S (Unit {0})) where
  -- Up to `n + 1` bytes read, until one of them passes the test: the loops that count a uint8_t `i`
  -- up to 0xFF, with `n` 255.
  unfoldable pub poll : (ℕ → Bool) → ℕ → M S ℕ
  poll until zero = exchange 0xff
  poll until (suc n) = exchange 0xff >>= λ r. stop_or (until r) r (poll until n)

  -- the outer loop of `wait_for`, with `timeout_steps` rounds left
  unfoldable pub wait_steps : ℕ → ℕ → M S ℕ
  wait_steps required zero = poll (λ r. r == required) 255
  wait_steps required (suc n) = poll (λ r. r == required) 255 >>= λ r.
      stop_or (r == required || n == 0) r (wait_steps required n)

  -- for a timeout of at least 1 ms, as all callers pass
  unfoldable pub wait_for : ℕ → ℕ → M S ℕ
  unfolding wait_steps poll
  wait_for required timeout = wait_steps required (timeout * 10)

  unfoldable pub send_cmd_crc : ℕ → ℕ → ℕ → M S ℕ
  unfolding poll
  send_cmd_crc command arg crc = do
    select
    _ ← exchange 0xff
    _ ← exchange command
    _ ← exchange ((arg / 2 ^ 24) % 256)
    _ ← exchange ((arg / 2 ^ 16) % 256)
    _ ← exchange ((arg / 2 ^ 8) % 256)
    _ ← exchange (arg % 256)
    _ ← exchange crc
    poll (λ status. bit_and status 0x80 == 0) 255

  abbrev pub send_cmd : ℕ → ℕ → M S ℕ
  send_cmd command arg = send_cmd_crc command arg 0xff

  unfoldable pub sd_read_start : ℕ → M S Bool
  unfolding send_cmd_crc wait_for
  sd_read_start address = do
    _ ← exchange 0xff
    status ← send_cmd 0x51 address
    elim (status == 0) [
      | false ↦ do deselect; pure false
      | true ↦ do
        token ← wait_for 0xfe 100
        elim (token == 0xfe) [ true ↦ pure true | false ↦ do deselect; pure false ]
    ]

  unfoldable pub sd_read_finished : M S (Unit {0})
  sd_read_finished = do _ ← exchange 0xff; _ ← exchange 0xff; deselect

  -- `n` bytes read into the buffer
  unfoldable pub read_bytes : ℕ → M S (List ℕ)
  read_bytes zero = pure []
  read_bytes (suc n) = do b ← exchange 0xff; bs ← read_bytes n; pure (b ∷ bs)

  -- `sd_read_block` after `sd_read_start`
  unfoldable pub read_started : Bool → Disk → M S (Bool × Disk)
  unfolding sd_read_finished read_bytes
  read_started false sd = do _ ← exchange 0; pure (false, sd)
  read_started true sd = do
    bytes ← read_bytes 512
    sd_read_finished
    _ ← exchange 0
    pure (true, record sd { buf = bytes })

  unfoldable pub sd_read_block : ℕ → Disk → M S (Bool × Disk)
  unfolding sd_read_start read_started
  sd_read_block address sd = do
    started ← sd_read_start (card_address address sd)
    read_started started sd

  unfoldable pub sd_write_start : ℕ → Disk → M S Bool
  unfolding send_cmd_crc
  sd_write_start address sd = do
    status ← send_cmd 0x58 (card_address address sd)
    elim (status == 0) [ true ↦ do _ ← exchange 0xfe; pure true | false ↦ do deselect; pure false ]

  -- the second test of `sd_write_finished`, with its three calls in their order; `true` for an error
  unfoldable pub write_failed : M S Bool
  unfolding wait_for send_cmd_crc
  write_failed = do
    done ← wait_for 0xff 250
    elim (done == 0xff) [
      | false ↦ pure true
      | true ↦ do
        r1 ← send_cmd 0x4d 0
        elim (r1 == 0) [ false ↦ pure true | true ↦ do r2 ← exchange 0xff; pure (not (r2 == 0)) ]
    ]

  unfoldable pub sd_write_finished : M S Bool
  unfolding write_failed
  sd_write_finished = do
    _ ← exchange 0xff
    _ ← exchange 0xff
    status ← exchange 0xff
    elim (bit_and status 0x0f == 0x05) [
      | false ↦ do deselect; pure false
      | true ↦ do failed ← write_failed; deselect; pure (not failed)
    ]

  unfoldable pub write_bytes : List ℕ → M S (Unit {0})
  write_bytes [] = pure tt
  write_bytes (b ∷ bs) = exchange b >>= λ _. write_bytes bs

  unfoldable pub sd_write_block : ℕ → Disk → M S Bool
  unfolding sd_write_start sd_write_finished write_bytes
  sd_write_block address sd = do
    started ← sd_write_start address sd
    succeeded ← elim started [
      | false ↦ pure false
      | true ↦ do write_bytes sd.buf; sd_write_finished
    ]
    _ ← exchange 0
    pure succeeded
