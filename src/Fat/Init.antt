-- ===== src/Fat/Init.antt =====
-- When `disk_init` of src/fat_impl.c accepts a card.
use phatio.Prelude.{ℕ, ◌≡◌, ◌≢◌, ◌↔◌, refl, true, Option, some, List, arith}
use phatio.Fat.{Disk, byte_at, uint32_value, read_block, disk_init}

-- the first block is a partition table whose first partition is a FAT16 one that does not start at 0
abbrev pub IsPartitioned : List ℕ → Type 0
IsPartitioned mbr =
    (byte_at mbr 510 ≡ 0x55)
    × (byte_at mbr 511 ≡ 0xaa)
    × (byte_at mbr 450 ≡ 0x04)
    × (uint32_value mbr 454 ≢ 0)

pub read_block-some :
    (card : ℕ → Option (List ℕ)) (n : ℕ) (sd : Disk) (b : List ℕ)
    → card n ≡ some b
    → read_block card n sd ≡ (true, record sd { buf = b })
unfolding read_block
read_block-some card n sd b h = rw (read_block, h) refl

-- On a card whose first block and the boot block that it points to can be read, `disk_init` accepts
-- exactly the cards with such a partition.
pub disk_init_iff :
    (card : ℕ → Option (List ℕ)) (sd : Disk) (mbr boot : List ℕ)
    → card 0 ≡ some mbr
    → card (uint32_value mbr 454) ≡ some boot
    → ((disk_init card sd).0 ≡ true) ↔ IsPartitioned mbr
unfolding disk_init
disk_init_iff card sd mbr boot c0 cp =
    rw
      (
        read_block-some card 0 sd mbr c0,
        read_block-some card (uint32_value mbr 454) (record sd { buf = mbr }) boot cp,
      )
      (ground arith)
