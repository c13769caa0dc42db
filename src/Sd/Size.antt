-- ===== src/Sd/Size.antt =====
-- The capacity that `sd_init` of src/sd.c reads from a version 2 card.
use phatio.Prelude.{ℕ, ◌+◌, ◌*◌, ◌%◌, ◌^◌, ◌<◌, ◌≡◌, ◌⊎◌, ◌↔◌, List, arith}
use phatio.Fat.{byte_at}
use phatio.Sd.Init.{size_v2}

-- bits 48 to 69 of the register
abbrev pub c_size : List ℕ → ℕ
c_size csd = (byte_at csd 7 % 64) * 65536 + byte_at csd 8 * 256 + byte_at csd 9

-- The capacity is (C_SIZE + 1) * 1024 blocks, modulo 2 ^ 32, exactly if bit 15 of C_SIZE is clear or
-- its upper six bits are all set.
pub size_v2_iff :
    (csd : List ℕ)
    → byte_at csd 8 < 256
    → byte_at csd 9 < 256
    → (size_v2 csd ≡ ((c_size csd + 1) * 1024) % 2 ^ 32)
      ↔ ((byte_at csd 8 < 128) ⊎ (byte_at csd 7 % 64 ≡ 63))
unfolding size_v2
size_v2_iff csd h8 h9 = (to, from)
  where
    to :
        size_v2 csd ≡ ((c_size csd + 1) * 1024) % 2 ^ 32
        → (byte_at csd 8 < 128) ⊎ (byte_at csd 7 % 64 ≡ 63)
    to e = ground arith

    from :
        (byte_at csd 8 < 128) ⊎ (byte_at csd 7 % 64 ≡ 63)
        → size_v2 csd ≡ ((c_size csd + 1) * 1024) % 2 ^ 32
    from h = ground arith
