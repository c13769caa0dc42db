-- ===== src/Support/MakeFs/Format.antt =====
-- The card that support/make_fs.c has formatted, in `disk_init` of src/fat_impl.c.
use phatio.Prelude.{ℕ, ◌*◌, ◌≡◌, refl, true}
use phatio.Fat.{Disk, disk_init, read_block, set_geometry}
use phatio.Support.MakeFs.{
  Image, partition_size, fat_start, root_dir_start, data_start, create_mbr, create_fat16_root_block,
  create_fat16_header, create_sfn_entry, format,
}
use phatio.Support.MakeFs.Blocks.{bytes_from, card_of}

-- The firmware accepts the card, and finds the places that the tool writes to.
pub disk_init-format :
    (serial_number : ℕ) (image : Image) (sd : Disk)
    → disk_init (card_of (format serial_number image)) sd ≡ (
      true,
      record sd {
        buf = bytes_from 512 (63 * 512) (format serial_number image);
        p_size = partition_size;
        fat_start = fat_start;
        root_dir = root_dir_start;
        data_start = data_start;
      },
    )
unfolding disk_init read_block set_geometry format create_mbr create_fat16_root_block
    create_fat16_header create_sfn_entry
disk_init-format serial_number image sd = refl
