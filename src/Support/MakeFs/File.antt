-- ===== src/Support/MakeFs/File.antt =====
-- Files that support/make_fs.c writes, in the chains of src/fat_impl.c.
use phatio.Prelude.{
  strncpy, lt→ltb, ℕ, zero, suc, ◌+◌, ◌-◌, ◌*◌, ◌<◌, ◌≤◌, ◌≡◌, ◌≢◌, ◌⊎◌, inl, inr, refl, sym, ap,
  ◌∙◌, true, false, Option, none, some, List, [], ◌∷◌, ◌++◌, length, get_or, drop, ltb, ◌==◌,
  if◌then◌else◌, arith,
}
use mathlib.Core.List.{append-nil, append_assoc}
use phatio.Fat.{Disk, cluster_to_block, get_next_cluster}
use phatio.Fat.Walk.{block, end}
use phatio.Boot.Check.{Contents}
use phatio.Support.MakeFs.{
  Image, Volume, create_blocks, create_file, create_directory_entry, bytes16, eoc,
}
use phatio.Support.MakeFs.Blocks.{card_of, bytes_from_same}
use phatio.Support.MakeFs.Rounds.{
  IsText, IsText-drop, length-strncpy, strncpy-short, strncpy-long, length-drop, round,
  blocks-Before, round_block, round_link,
}
use phatio.Support.MakeFs.Link.{next_of, cluster_to_block_data, link_small, link_read}

short_cases : (n : ℕ) → (n ≤ 512) ⊎ (512 < n)
short_cases n = ground arith

length_ne : (s : List ℕ) → s ≢ [] → length s ≢ 0
length_ne [] h e = absurd (h refl)
length_ne (c ∷ s) h e = absurd (omega arith)

create_blocks-suc :
    (n left : ℕ) (content : List ℕ) (v : Volume)
    → left ≢ 0
    → create_blocks (suc n) left content v
      ≡ create_blocks n (left - 512) (drop 512 content) (round left content v)
unfolding create_blocks
create_blocks-suc n left content v h = let t : (left == 0) ≡ false = ground (arith, h) in rw t refl

module _ (sd : Disk) (fat_at : sd.fat_start ≡ 64) (data_at : sd.data_start ≡ 219) where
  -- the block of the first round, and its link, after the rounds that follow
  first_block :
      (n left : ℕ) (content : List ℕ) (v : Volume)
      → 2 ≤ v.free_cluster
      → left ≢ 0
      → v.free_cluster * 512 + left ≤ 31488 * 512
      → let image =
          (create_blocks n (left - 512) (drop 512 content) (round left content v)).image in
        card_of image (cluster_to_block sd v.free_cluster) ≡ some (strncpy 512 content)
  first_block n left content v lo nz hi =
      let c = v.free_cluster in
      let w = round left content v in
      let image = (create_blocks n (left - 512) (drop 512 content) w).image in
      let m : w.free_cluster ≡ c + 1 = omega (arith, hi, nz) in
      let e = cluster_to_block_data sd c data_at lo (omega (arith, hi, nz)) in
      rw e (
        ap some (
          bytes_from_same 512 ((217 + c) * 512) image (strncpy 512 content)
            (length-strncpy 512 content)
            (λ i h.
              blocks-Before n (left - 512) (drop 512 content) w ((217 + c) * 512 + i)
                (omega (arith, m)) (omega (arith, m, hi, nz))
                (inr (omega arith, omega (arith, m, h)))
              ∙ round_block left content v i lo h)))

  first_link :
      (n left : ℕ) (content : List ℕ) (v : Volume) (b : List ℕ)
      → 2 ≤ v.free_cluster
      → left ≢ 0
      → v.free_cluster * 512 + left ≤ 31488 * 512
      → let image =
          (create_blocks n (left - 512) (drop 512 content) (round left content v)).image in
        (get_next_cluster (card_of image) (record sd { buf = b }) v.free_cluster).0
        ≡ (if ltb 512 left then v.free_cluster + 1 else 0)
  first_link n left content v b lo nz hi =
      let c = v.free_cluster in
      let w = round left content v in
      let image = (create_blocks n (left - 512) (drop 512 content) w).image in
      let m : w.free_cluster ≡ c + 1 = omega (arith, hi, nz) in
      let value : ℕ = if ltb 512 left then c + 1 else eoc in
      let kept : (i : ℕ) → i < 2 → image (32768 + c * 2 + i) ≡ get_or (bytes16 value) i 0 = λ i h.
        blocks-Before n (left - 512) (drop 512 content) w (32768 + c * 2 + i) (omega (arith, m))
          (omega (arith, m, hi, nz)) (inl (omega (arith, m, h)))
        ∙ round_link left content v i lo (omega (arith, hi, nz)) h in
      next_of image (record sd { buf = b }) c value fat_at lo (omega (arith, hi, nz))
        (link_small left c (omega (arith, hi, nz))) (kept 0 (omega arith)) (kept 1 (omega arith))
      ∙ link_read left c lo (omega (arith, hi, nz))

  -- the blocks of a file whose first block has been written
  last_block :
      (n : ℕ) (content : List ℕ) (v : Volume)
      → IsText content
      → length content ≢ 0
      → length content ≤ 512
      → 2 ≤ v.free_cluster
      → v.free_cluster * 512 + length content ≤ 31488 * 512
      → Contents
          (card_of
            (create_blocks n
              (length content - 512)
              (drop 512 content)
              (round (length content) content v)).image)
          sd
          v.free_cluster
          content
  last_block n content v t nz l lo hi =
      let left = length content in
      let (rest, e) = strncpy-short 512 content t l in
      let s : ltb 512 left ≡ false = ground arith in
      let link : (get_next_cluster
            (card_of (create_blocks n (left - 512) (drop 512 content) (round left content v)).image)
            (record sd { buf = strncpy 512 content }) v.free_cluster).0
          ≡ 0 =
        first_link n left content v (strncpy 512 content) lo nz hi ∙ rw s refl in
      record {
        blocks = strncpy 512 content ∷ [];
        rest = rest;
        chain = block (omega (arith, lo)) (first_block n left content v lo nz hi) link end;
        whole = (length-strncpy 512 content, tt);
        holds = append-nil (strncpy 512 content) ∙ e;
      }

  more_blocks :
      (n : ℕ) (content : List ℕ) (v : Volume)
      → IsText content
      → 512 < length content
      → 2 ≤ v.free_cluster
      → v.free_cluster * 512 + length content ≤ 31488 * 512
      → let image =
          (create_blocks n
            (length content - 512)
            (drop 512 content)
            (round (length content) content v)).image in
        Contents (card_of image) sd (v.free_cluster + 1) (drop 512 content)
        → Contents (card_of image) sd v.free_cluster content
  more_blocks n content v t l lo hi later =
      let left = length content in
      let s : ltb 512 left ≡ true = lt→ltb 512 left l in
      let link : (get_next_cluster
            (card_of (create_blocks n (left - 512) (drop 512 content) (round left content v)).image)
            (record sd { buf = strncpy 512 content }) v.free_cluster).0
          ≡ v.free_cluster + 1 =
        first_link n left content v (strncpy 512 content) lo (omega arith) hi ∙ rw s refl in
      record {
        blocks = strncpy 512 content ∷ later.blocks;
        rest = later.rest;
        chain =
            block (omega (arith, lo)) (first_block n left content v lo (omega arith) hi) link
              later.chain;
        whole = (length-strncpy 512 content, later.whole);
        holds =
            ap (λ l. strncpy 512 content ++ l) later.holds
            ∙ (sym (append_assoc (strncpy 512 content) (drop 512 content) later.rest)
                ∙ ap (λ l. l ++ later.rest) (strncpy-long 512 content t (omega arith)));
      }

  at_cluster :
      (image : Image) (text : List ℕ) (c c' : ℕ)
      → c ≡ c'
      → Contents (card_of image) sd c text
      → Contents (card_of image) sd c' text
  at_cluster image text c c' e h = rw (sym e) h

  create_blocks-Contents :
      (n : ℕ) (content : List ℕ) (v : Volume)
      → IsText content
      → length content ≢ 0
      → length content ≤ n
      → 2 ≤ v.free_cluster
      → v.free_cluster * 512 + length content ≤ 31488 * 512
      → Contents
          (card_of (create_blocks n (length content) content v).image)
          sd
          v.free_cluster
          content
  create_blocks-Contents zero content v t nz l lo hi = absurd (omega (arith, nz))
  create_blocks-Contents (suc n) content v t nz l lo hi = elim (short_cases (length content)) [
    | inl s ↦
        rw (create_blocks-suc n (length content) content v nz) (last_block n content v t nz s lo hi)
    | inr m ↦
        let w = round (length content) content v in
        let next : w.free_cluster ≡ v.free_cluster + 1 = omega (arith, hi, nz) in
        let rest = drop 512 content in
        let d = length-drop 512 content in
        let ih =
          create_blocks-Contents n rest w (IsText-drop 512 content t) (omega (arith, d))
            (omega (arith, d)) (omega (arith, next)) (omega (arith, next, d, hi)) in
        let later : Contents (card_of (create_blocks n (length content - 512) rest w).image) sd
            w.free_cluster rest =
          rw (sym d) ih in
        rw (create_blocks-suc n (length content) content v nz) (
          more_blocks n content v t m lo hi (
            at_cluster (create_blocks n (length content - 512) rest w).image rest w.free_cluster
              (v.free_cluster + 1) next later))
  ]

  -- A text without a 0, and not empty, that `create_file` writes with its own length is found again
  -- along the chain of its first cluster, from the free cluster on, which is 2 or more, as long as
  -- the FAT has room. The disk has the places of the FAT and of the data that the tool writes to.
  pub create_file-Contents :
      (entry : ℕ) (name : List ℕ) (sfn : Option (List ℕ)) (attributes : ℕ) (content : List ℕ)
      (v : Volume)
      → IsText content
      → content ≢ []
      → 2 ≤ v.free_cluster
      → v.free_cluster * 512 + length content ≤ 31488 * 512
      → Contents
          (card_of (create_file entry name sfn attributes content none v).1.image)
          sd
          v.free_cluster
          content
  unfolding create_file
  create_file-Contents entry name sfn attributes content v t nz lo hi =
      let start : Volume = record v {
        image =
            (create_directory_entry entry name sfn attributes v.free_cluster (length content)
              v.image).1;
      } in
      create_blocks-Contents (length content) content start t (length_ne content nz) (omega arith)
        lo hi
