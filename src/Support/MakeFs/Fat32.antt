-- ===== src/Support/MakeFs/Fat32.antt =====
-- The functions of support/make_fs.c for FAT32, which `main` does not call.
use phatio.Prelude.{ℕ, ◌+◌, ◌*◌, List, [], ◌∷◌}
use phatio.Support.MakeFs.{Image, fat_start, put, copy, bytes16, bytes32}

-- the table `BPB` of `create_FAT32_root_block`
abbrev bpb32_table : List ℕ
bpb32_table =
    235 ∷ 60 ∷ 144 ∷ 66 ∷ 83 ∷ 68 ∷ 32 ∷ 32 ∷ 52 ∷ 46 ∷ 52 ∷ 0 ∷ 2 ∷ 1 ∷ 0 ∷ 0 ∷ 1 ∷ 0 ∷ 0 ∷ 0 ∷ 0
    ∷ 240 ∷ 0 ∷ 0 ∷ 0 ∷ 0 ∷ 0 ∷ 0 ∷ 0 ∷ 0 ∷ 0 ∷ 0 ∷ 0 ∷ 0 ∷ 0 ∷ 0 ∷ 0 ∷ 0 ∷ 0 ∷ 0 ∷ 0 ∷ 0 ∷ 0 ∷ 0
    ∷ 2 ∷ 0 ∷ 0 ∷ 0 ∷ 1 ∷ 0 ∷ 6 ∷ 0 ∷ 0 ∷ 0 ∷ 0 ∷ 0 ∷ 0 ∷ 0 ∷ 0 ∷ 0 ∷ 0 ∷ 0 ∷ 0 ∷ 0 ∷ 128 ∷ 0 ∷ 41
    ∷ 252 ∷ 23 ∷ 255 ∷ 120 ∷ 80 ∷ 72 ∷ 65 ∷ 84 ∷ 73 ∷ 79 ∷ 32 ∷ 32 ∷ 32 ∷ 32 ∷ 32 ∷ 70 ∷ 65 ∷ 84
    ∷ 51 ∷ 50 ∷ 32 ∷ 32 ∷ 32 ∷ []

unfoldable pub create_fat32_root_block : ℕ → ℕ → ℕ → ℕ → ℕ → ℕ → ℕ → ℕ → Image → Image
create_fat32_root_block block reserved_sectors hidden_sectors total_sectors sectors_per_fat flags
      fs_info backup image =
    let bpb = block * 512 in
    put (bpb + 511) 0xaa (
      put (bpb + 510) 0x55 (
        copy (bpb + 50) (bytes16 backup) (
          copy (bpb + 48) (bytes16 fs_info) (
            copy (bpb + 40) (bytes16 flags) (
              copy (bpb + 36) (bytes32 sectors_per_fat) (
                copy (bpb + 32) (bytes32 total_sectors) (
                  copy (bpb + 28) (bytes32 hidden_sectors)
                    (copy (bpb + 14) (bytes16 reserved_sectors) (copy bpb bpb32_table image)))))))))

unfoldable pub create_fat32_header : ℕ → Image → Image
create_fat32_header buf image =
    copy buf (0xf0 ∷ 0xff ∷ 0xff ∷ 0xff ∷ 0xff ∷ 0xff ∷ 0xff ∷ 0x0f ∷ []) image

unfoldable pub fat32_entry : ℕ → ℕ → Image → Image
fat32_entry cluster value image = copy (fat_start * 512 + cluster * 4) (bytes32 value) image
