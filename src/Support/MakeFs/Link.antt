-- ===== src/Support/MakeFs/Link.antt =====
-- Links that support/make_fs.c writes, as `get_next_cluster` of src/fat_impl.c reads them.
use phatio.Prelude.{
  ℕ, ◌+◌, ◌*◌, ◌/◌, ◌%◌, ◌<◌, ◌≤◌, ◌≡◌, refl, ap, ◌∙◌, false, ◌&&◌, get_or, bit_and, ltb, leb,
  if◌then◌else◌, arith,
}
use phatio.Prelude.Masks.{bit_and_byte}
use phatio.Fat.{Disk, cluster_to_block, get_next_cluster, next_in_fat, read_block}
use phatio.Support.MakeFs.{Image, eoc}
use phatio.Support.MakeFs.Blocks.{bytes_from, card_of, get_or-bytes_from}

-- the link of a cluster, in the FAT of the image
pub next_of :
    (image : Image) (d : Disk) (c value : ℕ)
    → d.fat_start ≡ 64
    → 2 ≤ c
    → c < 31488
    → value < 65536
    → image (32768 + c * 2 + 0) ≡ value % 256
    → image (32768 + c * 2 + 1) ≡ value / 256 % 256
    → (get_next_cluster (card_of image) d c).0
      ≡ (if ltb 2 value && ltb value 0xffef then value else 0)
unfolding get_next_cluster next_in_fat read_block
next_of image d c value f lo hi small low high =
    let n : leb 32768 c ≡ false = ground arith in
    let b : ℕ = (64 + c / 256) % 65536 in
    let i : ℕ = bit_and c 0xff * 2 in
    let m = bit_and_byte c in
    let p : get_or (bytes_from 512 (b * 512) image) i 0 ≡ value % 256 =
      let e : b * 512 + i ≡ 32768 + c * 2 + 0 = omega (arith, m) in
      get_or-bytes_from 512 (b * 512) i image (omega (arith, m)) ∙ (ap image e ∙ low) in
    let q : get_or (bytes_from 512 (b * 512) image) (i + 1) 0 ≡ value / 256 % 256 =
      let e : b * 512 + (i + 1) ≡ 32768 + c * 2 + 1 = omega (arith, m) in
      get_or-bytes_from 512 (b * 512) (i + 1) image (omega (arith, m)) ∙ (ap image e ∙ high) in
    let v : value % 256 + 256 * (value / 256 % 256) ≡ value = omega arith in rw (n, f, p, q, v) refl

pub cluster_to_block_data :
    (sd : Disk) (c : ℕ) → sd.data_start ≡ 219 → 2 ≤ c → c < 31488 → cluster_to_block sd c ≡ 217 + c
unfolding cluster_to_block
cluster_to_block_data sd c d lo hi =
    let n : leb 32768 c ≡ false = ground arith in rw (n, d) (omega arith)

-- the link that a round writes, as it is read
pub link_small : (left c : ℕ) → c < 31488 → (if ltb 512 left then c + 1 else eoc) < 65536
link_small left c h = ground arith

pub link_read :
    (left c : ℕ)
    → 2 ≤ c
    → c < 31488
    → let value = if ltb 512 left then c + 1 else eoc in
      (if ltb 2 value && ltb value 0xffef then value else 0) ≡ (if ltb 512 left then c + 1 else 0)
link_read left c lo hi = ground arith
