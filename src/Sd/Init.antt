-- ===== src/Sd/Init.antt =====
-- `sd_init` of src/sd.c, with the two capacity computations as functions of their own. The result is
-- the status, 0 for success, and the disk.
use phatio.Prelude.{
  ℕ, zero, suc, ◌+◌, ◌*◌, ◌/◌, ◌%◌, ◌^◌, Bool, true, false, not, ◌||◌, List, ◌∷◌, ◌++◌, bit_and,
  bit_or, drop, ltb, ◌==◌, if◌then◌else◌,
}
use phatio.Fat.{Disk, byte_at}
use phatio.Sd.Bus.{M, ◌>>=◌, ◌>>◌, pure}
use phatio.Sd.{poll, send_cmd_crc, send_cmd, read_bytes}

-- `sd_version(sd)`
abbrev pub version : ℕ → ℕ
version sd_type = bit_and sd_type 0x03

-- The upper 16 bits of `(uint32_t)(b7 & 0x3F) << 16 | (b8 << 8) | b9`: `b8 << 8` is an `int` of 16
-- bits, and its sign is extended to the uint32_t.
abbrev pub size_high : ℕ → ℕ → ℕ
size_high b7 b8 = if ltb b8 128 then b7 % 64 else 0xffff

-- the capacity in blocks of a version 2 card
unfoldable pub size_v2 : List ℕ → ℕ
size_v2 csd =
    let high = size_high (byte_at csd 7) (byte_at csd 8) in
    ((high * 65536 + byte_at csd 8 * 256 + byte_at csd 9 + 1) * 1024) % 2 ^ 32

-- the capacity in blocks of any other card
unfoldable pub size_v1 : List ℕ → ℕ
size_v1 csd =
    let size = (byte_at csd 6 % 4) * 1024 + byte_at csd 7 * 4 + byte_at csd 8 / 64 in
    let mult = (byte_at csd 9 % 4) * 2 + byte_at csd 10 / 128 + 2 in (size * 2 ^ mult) % 2 ^ 32

module _ {S : Type 0} (exchange : ℕ → M S ℕ) (select deselect : M S (Unit {0})) where
  -- the loop of ACMD41, with the rounds left; the status of its last round
  unfoldable pub wait_ready : ℕ → Bool → M S ℕ
  unfolding send_cmd_crc
  wait_ready zero v2 = pure 0xff
  wait_ready (suc n) v2 = do
    _ ← send_cmd exchange select deselect 0x77 0
    status ← elim v2 [
      | true ↦ send_cmd exchange select deselect 0x69 0x40000000
      | false ↦ send_cmd_crc exchange select deselect 0x69 0 0xd5
    ]
    elim (status == 0) [
      | true ↦ pure status
      | false ↦ elim (n == 0) [ true ↦ pure status | false ↦ wait_ready n v2 ]
    ]

  -- the loop of CMD1: the type of the card afterwards
  unfoldable pub wait_ready_cmd1 : ℕ → ℕ → M S ℕ
  unfolding send_cmd_crc
  wait_ready_cmd1 zero sd_type = pure sd_type
  wait_ready_cmd1 (suc n) sd_type = do
    status ← send_cmd exchange select deselect 0x41 0
    elim (status == 0) [ true ↦ pure (bit_and sd_type 0xfc) | false ↦ wait_ready_cmd1 n sd_type ]

  -- from CMD9 on: the card's register and its capacity
  unfoldable pub read_capacity : Disk → M S (ℕ × Disk)
  unfolding send_cmd_crc poll read_bytes
  read_capacity sd = do
    deselect
    _ ← exchange 0xff
    status ← send_cmd exchange select deselect 0x49 0
    elim (status == 0) [
      | false ↦ pure (0xa0, sd)
      | true ↦ do
        b0 ← poll exchange select deselect (λ b. bit_and b 0x80 == 0) 255
        bytes ← read_bytes exchange select deselect 15
        _ ← exchange 0xff
        _ ← exchange 0xff
        deselect
        let csd = b0 ∷ bytes
        let sd_type =
            if bit_and b0 0xc0 == 0 then bit_and (bit_or sd.sd_type 0x01) 0xfd else sd.sd_type
        pure (
          0,
          record sd {
            sd_type = sd_type;
            buf = csd ++ drop 16 sd.buf;
            sd_size = if version sd_type == 2 then size_v2 csd else size_v1 csd;
          },
        )
    ]

  -- CMD58, for a version 2 card
  unfoldable pub check_addressing : Disk → M S (ℕ × Disk)
  unfolding send_cmd_crc read_capacity
  check_addressing sd = do
    r1 ← send_cmd exchange select deselect 0x7a 0
    elim (r1 == 0) [
      | false ↦ pure (4, sd)
      | true ↦ do
        ocr ← exchange 0xff
        _ ← exchange 0xff
        _ ← exchange 0xff
        _ ← exchange 0xff
        deselect
        read_capacity (
            if bit_and ocr 0xc0 == 0xc0 then sd else record sd { sd_type = bit_or sd.sd_type 0x04 })
    ]

  -- from ACMD41 on
  unfoldable pub activate : Disk → M S (ℕ × Disk)
  unfolding wait_ready wait_ready_cmd1 check_addressing read_capacity
  activate sd = do
    deselect
    status ← wait_ready 1000 (version sd.sd_type == 2)
    elim (status == 0) [
      | true ↦ elim (version sd.sd_type == 2) [
        | true ↦ check_addressing sd
        | false ↦ read_capacity sd
      ]
      | false ↦ elim (version sd.sd_type == 2) [
        | true ↦ pure (3, sd)
        | false ↦ do
          sd_type ← wait_ready_cmd1 1000 sd.sd_type
          read_capacity (record sd { sd_type = sd_type })
      ]
    ]

  -- CMD8: the version of the card
  unfoldable pub check_version : Disk → M S (ℕ × Disk)
  unfolding send_cmd_crc activate
  check_version sd = do
    status ← send_cmd_crc exchange select deselect 0x48 0x01aa 0x87
    elim (not (bit_and status 0x04 == 0) || (status == 0xff)) [
      | true ↦ activate (record sd { sd_type = bit_or 0x04 0x01 })
      | false ↦ do
        _ ← exchange 0xff
        _ ← exchange 0xff
        echo ← exchange 0xff
        elim (echo == 0x01) [
          | true ↦ activate (record sd { sd_type = 0x02 })
          | false ↦ do
            pattern_ ← exchange 0xff
            elim (pattern_ == 0xaa) [
              | true ↦ activate (record sd { sd_type = 0x02 })
              | false ↦ pure (2, sd)
            ]
        ]
    ]

  unfoldable pub sd_init : Disk → M S (ℕ × Disk)
  unfolding read_bytes send_cmd_crc check_version
  sd_init sd = do
    deselect
    deselect
    _ ← read_bytes exchange select deselect 10
    status ← send_cmd_crc exchange select deselect 0x40 0 0x95
    deselect
    elim (status == 0x01) [ true ↦ check_version sd | false ↦ pure (1, sd) ]
