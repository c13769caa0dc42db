-- ===== src/Support/MakeFs/Kept.antt =====
-- What support/make_fs.c leaves in front of the FAT: the blocks that `disk_init` reads.
use phatio.Prelude.{
  strncpy, false, ℕ, zero, suc, ◌+◌, ◌-◌, ◌*◌, ◌/◌, ◌%◌, ◌<◌, ◌≤◌, ◌≡◌, inl, inr, ◌∙◌, Option, none,
  some, List, [], ◌∷◌, length, take, drop, bit_or, ltb, ◌==◌, if◌then◌else◌, Bool-cases, arith,
}
use phatio.ShortName.{fat_sfn, sfn_checksum}
use phatio.Support.MakeFs.{
  Image, Volume, put, copy, bytes16, bytes32, times, fat_entry, write_terminated, write_lfn,
  lfn_offsets, create_lfn_entry, create_sfn_entry, create_lfn_entries, create_directory_entry,
  create_blocks, buffer_for_cluster, eoc,
}
use phatio.Support.MakeFs.Blocks.{copy-outside}

-- `old` is the image of the first 64 blocks
module _ (old : Image) where
  abbrev pub Kept : Image → Type 0
  Kept image = (a : ℕ) → a < 32768 → image a ≡ old a

  put-Kept :
      (address byte : ℕ) (image : Image)
      → 32768 ≤ address
      → Kept image
      → Kept (put address byte image)
  put-Kept address byte image l h a m =
      let t : (a == address) ≡ false = ground arith in rw t (h a m)

  copy-Kept :
      (address : ℕ) (bytes : List ℕ) (image : Image)
      → 32768 ≤ address
      → Kept image
      → Kept (copy address bytes image)
  copy-Kept address bytes image l h a m =
      copy-outside address a bytes image (inl (omega arith)) ∙ h a m

  write_terminated-Kept :
      (lfn : List ℕ) (buf i : ℕ) (image : Image)
      → 32768 ≤ buf
      → Kept image
      → Kept (write_terminated lfn buf i image)
  write_terminated-Kept lfn buf i image l h = elim (Bool-cases (ltb i (length lfn))) [
    | inl t ↦ rw t (put-Kept buf _ image l h)
    | inr t ↦ elim (Bool-cases (ltb (length lfn) i)) [
      | inl u ↦
          rw (t, u)
            (put-Kept (buf + 1) 0xff (put buf 0xff image) (omega arith)
              (put-Kept buf 0xff image l h))
      | inr u ↦ rw (t, u) h
    ]
  ]

  write_lfn-Kept :
      (lfn : List ℕ) (buf : ℕ) (os : List ℕ) (i : ℕ) (image : Image)
      → 32768 ≤ buf
      → Kept image
      → Kept (write_lfn lfn buf os i image)
  write_lfn-Kept lfn buf [] i image l h = h
  write_lfn-Kept lfn buf (o ∷ os) i image l h =
      write_lfn-Kept lfn buf os (i + 1) (write_terminated lfn (buf + o) i image) l
        (write_terminated-Kept lfn (buf + o) i image (omega arith) h)

  create_lfn_entry-Kept :
      (buf entry : ℕ) (lfn : List ℕ) (checksum : ℕ) (image : Image)
      → 32768 ≤ buf
      → Kept image
      → Kept (create_lfn_entry buf entry lfn checksum image).1
  unfolding create_lfn_entry
  create_lfn_entry-Kept buf entry lfn checksum image l h =
      let p =
        write_lfn-Kept lfn buf lfn_offsets 0 (put buf entry image) l
          (put-Kept buf entry image l h) in
      put-Kept (buf + 27) 0 _ (omega arith) (
        put-Kept (buf + 26) 0 _ (omega arith) (
          put-Kept (buf + 13) checksum _ (omega arith)
            (put-Kept (buf + 12) 0 _ (omega arith) (put-Kept (buf + 11) 0x0f _ (omega arith) p))))

  pub create_sfn_entry-Kept :
      (buf : ℕ) (short : List ℕ) (attributes cluster size : ℕ) (image : Image)
      → 32768 ≤ buf
      → Kept image
      → Kept (create_sfn_entry buf short attributes cluster size image).1
  unfolding create_sfn_entry
  create_sfn_entry-Kept buf short attributes cluster size image l h =
      copy-Kept (buf + 28) (bytes32 size) _ (omega arith) (
        copy-Kept (buf + 26) (bytes16 cluster) _ (omega arith) (
          copy-Kept (buf + 13) times _ (omega arith) (
            put-Kept (buf + 11) attributes _ (omega arith)
              (copy-Kept buf (take 11 short) image l h))))

  -- an entry was written, and the next one goes behind it
  abbrev pub Placed : ℕ × Image → Type 0
  Placed r = (32768 ≤ r.0) × Kept r.1

  create_lfn_entries-Placed :
      (total n : ℕ) (name : List ℕ) (checksum buf : ℕ) (image : Image)
      → 32768 ≤ buf
      → Kept image
      → Placed (create_lfn_entries total n name checksum buf image)
  unfolding create_lfn_entries create_lfn_entry
  create_lfn_entries-Placed total zero name checksum buf image l h = (l, h)
  create_lfn_entries-Placed total (suc n) name checksum buf image l h =
      let ordinal = bit_or (suc n) (if suc n == total then 64 else 0) in
      create_lfn_entries-Placed total n name checksum (buf + 32) _ (omega arith)
        (create_lfn_entry-Kept buf ordinal (drop (n * 13) name) checksum image l h)

  pub create_directory_entry-Placed :
      (buf : ℕ) (name : List ℕ) (sfn : Option (List ℕ)) (attributes cluster size : ℕ)
      (image : Image)
      → 32768 ≤ buf
      → Kept image
      → Placed (create_directory_entry buf name sfn attributes cluster size image)
  unfolding create_directory_entry create_sfn_entry
  create_directory_entry-Placed buf name sfn attributes cluster size image l h =
      let short : List ℕ = fat_sfn (elim sfn [ none ↦ name | some s ↦ s ]) in
      let n = length name % 256 / 13 + 1 in
      let r = create_lfn_entries n n name (sfn_checksum short) buf image in
      let p = create_lfn_entries-Placed n n name (sfn_checksum short) buf image l h in
      let q : 32768 ≤ r.0 = p.0 in
      (omega (arith, q), create_sfn_entry-Kept r.0 short attributes cluster size r.1 p.0 p.1)

  pub fat_entry-Kept :
      (cluster value : ℕ) (image : Image) → Kept image → Kept (fat_entry cluster value image)
  unfolding fat_entry
  fat_entry-Kept cluster value image h = copy-Kept _ (bytes16 value) image (omega arith) h

  pub create_blocks-Kept :
      (n left : ℕ) (content : List ℕ) (v : Volume)
      → Kept v.image
      → Kept (create_blocks n left content v).image
  unfolding create_blocks
  create_blocks-Kept zero left content v h = h
  create_blocks-Kept (suc n) left content v h =
      let value = if ltb 512 left then v.free_cluster + 1 else eoc in
      let later = create_blocks-Kept n (left - 512) (drop 512 content) _ (
        copy-Kept (buffer_for_cluster v.free_cluster) (strncpy 512 content) _ (omega arith)
          (fat_entry-Kept v.free_cluster value v.image h)) in
      elim (Bool-cases (left == 0)) [ inl t ↦ rw t h | inr t ↦ rw t later ]
