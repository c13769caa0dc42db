-- ===== src/Boot/Search.antt =====
-- The search for a boot file, `find_and_load_bootfile` of src/bootloader_sdihex.c.
use phatio.Prelude.{
  ℕ, zero, suc, ◌+◌, ◌*◌, ◌<◌, ◌≡◌, ◌≢◌, refl, sym, ap, ◌∙◌, Bool, true, false, not, ◌&&◌, Option,
  none, some, List, inl, inr, take, drop, length, Bool-cases, ◌==◌, arith,
}
use mathlib.Core.Option.{some-injective, none-ne-some}
use phatio.Fat.{
  Disk, uint32_value, fatdirent_get_cluster, root_cluster, cluster_to_block, entry_or,
  find_sfn_entry, read_block, get_next_cluster, find_file_loop, find_sfn_file,
}
use phatio.Fat.Walk.{
  Directory, first, lookup_blocks, find_file_loop-Directory, block-buf, read-some,
}
use phatio.Boot.Card.{
  Boot, io_name, boot_name, is_bootfile, check_bootfile, check_entries, find_and_load_bootfile,
}
use phatio.Boot.Keeps.{read_block-OnlyBuffer, get_next_cluster-OnlyBuffer}

abbrev WhenSome {ℓ κ} : {A : Type ℓ} → (A → Type κ) → Option A → Type κ
WhenSome P none = Unit
WhenSome P (some x) = P x

module _ (card : ℕ → Option (List ℕ)) (sd : Disk) where
  abbrev Buffered : Disk → Type 0
  Buffered d = d ≡ record sd { buf = d.buf }

  found_Buffered :
      (o : Option ℕ) (d : Disk) (r : Option (ℕ × Disk))
      → Buffered d
      → WhenSome (λ x. Buffered x.1) r
      → WhenSome (λ x. Buffered x.1) (entry_or o d r)
  found_Buffered none d r h k = k
  found_Buffered (some i) d r h k = h

  find_file_loop-Buffered :
      (name : List ℕ) (attributes fuel cluster : ℕ) (d : Disk)
      → Buffered d
      → WhenSome (λ x. Buffered x.1) (find_file_loop card name attributes fuel cluster d)
  unfolding find_file_loop
  find_file_loop-Buffered name attributes zero cluster d h = tt
  find_file_loop-Buffered name attributes (suc fuel) cluster d h =
      let read = read_block-OnlyBuffer card sd d (cluster_to_block d cluster) h in
      let d' = (read_block card (cluster_to_block d cluster) d).1 in
      let (next, d'') = get_next_cluster card d' cluster in
      let rest =
        find_file_loop-Buffered name attributes fuel next d''
          (get_next_cluster-OnlyBuffer card sd d' cluster read) in
      elim (Bool-cases (cluster == 0)) [
        | inl z ↦ rw z h
        | inr z ↦ rw z (found_Buffered (find_sfn_entry d'.buf name 0xd8 attributes) d' _ read rest)
      ]

  as_some :
      (o : Option (ℕ × Disk)) (c : ℕ)
      → first o ≡ some c
      → WhenSome (λ x. Buffered x.1) o
      → (y : List ℕ) × (o ≡ some (c, record sd { buf = y }))
  as_some none c e h = absurd (none-ne-some c e)
  as_some (some x) c e h =
      let g : ℕ → Disk → Option (ℕ × Disk) = λ n d. some (n, d) in
      (x.1.buf, ap (λ n. g n x.1) (some-injective x.0 c e) ∙ ap (g c) h)

  -- `find_sfn_file` on a directory, with the disk that it leaves
  find_sfn_file_found :
      (name : List ℕ) (x : List ℕ) (cluster fuel : ℕ) (bs : List (List ℕ))
      → Directory card sd cluster bs
      → length bs < fuel
      → (y : List ℕ) × (find_sfn_file card fuel cluster name true (record sd { buf = x })
          ≡ some (lookup_blocks name 0x10 bs, record sd { buf = y }))
  unfolding find_sfn_file
  find_sfn_file_found name x cluster fuel bs d l =
      as_some (find_file_loop card name 0x10 fuel cluster (record sd { buf = x }))
        (lookup_blocks name 0x10 bs) (find_file_loop-Directory card name 0x10 fuel sd x d l)
        (find_file_loop-Buffered name 0x10 fuel cluster (record sd { buf = x }) refl)

-- the slot at `i` of a directory's block is a boot file that is not empty
abbrev pub is_candidate : List ℕ → ℕ → Bool
is_candidate b i = is_bootfile b i && not (uint32_value b (i + 28) == 0)

module _ (card : ℕ → Option (List ℕ)) (update : ℕ → ℕ → ℕ) (stack : List ℕ) where
  abbrev check_slot : ℕ → Boot → Bool × Boot
  check_slot i b =
      let buf = b.reader.disk.buf in
      check_bootfile card update stack (take 8 (drop i buf)) (uint32_value buf (i + 28))
        (fatdirent_get_cluster buf i) b

  check_entries_first :
      (n j i : ℕ) (b : Boot)
      → j < n
      → ((k : ℕ) → k < j → is_candidate b.reader.disk.buf (i + 32 * k) ≡ false)
      → is_candidate b.reader.disk.buf (i + 32 * j) ≡ true
      → check_entries card update stack n i b ≡ check_slot (i + 32 * j) b
  unfolding check_entries
  check_entries_first zero j i b l before here = absurd (omega arith)
  check_entries_first (suc n) zero i b l before here =
      let z : i + 32 * 0 ≡ i = omega arith in
      let t : is_candidate b.reader.disk.buf i ≡ true =
        sym (ap (λ i. is_candidate b.reader.disk.buf i) z) ∙ here in
      rw (t, z) refl
  check_entries_first (suc n) (suc j) i b l before here =
      let z : i + 32 * 0 ≡ i = omega arith in
      let t : is_candidate b.reader.disk.buf i ≡ false =
        sym (ap (λ i. is_candidate b.reader.disk.buf i) z) ∙ before 0 (omega arith) in
      let e : i + 32 * suc j ≡ i + 32 + 32 * j = omega arith in
      let h : is_candidate b.reader.disk.buf (i + 32 + 32 * j) ≡ true =
        sym (ap (λ i. is_candidate b.reader.disk.buf i) e) ∙ here in
      let ih =
        check_entries_first n j (i + 32) b (omega arith)
          (λ k m.
            let e : i + 32 * suc k ≡ i + 32 + 32 * k = omega arith in
            sym (ap (λ i. is_candidate b.reader.disk.buf i) e) ∙ before (suc k) (omega arith))
          h in
      rw (t, e) ih

  -- The first slot of the first block of /IO/BOOT that is a boot file, and not an empty one, is
  -- checked, and no other one, with fuel for one step more than each of the two directories has
  -- blocks. The directories are readable, and /IO/BOOT is found.
  pub find_and_load_bootfile_first :
      (fs : Disk) (b : Boot) (fuel j : ℕ) (root io : List (List ℕ)) (slots : List ℕ)
      → Directory card fs root_cluster root
      → length root < fuel
      → Directory card fs (lookup_blocks io_name 0x10 root) io
      → length io < fuel
      → lookup_blocks boot_name 0x10 io ≢ 0
      → card (cluster_to_block fs (lookup_blocks boot_name 0x10 io)) ≡ some slots
      → j < 16
      → ((k : ℕ) → k < j → is_candidate slots (32 * k) ≡ false)
      → is_candidate slots (32 * j) ≡ true
      → find_and_load_bootfile card update stack fuel fs b
        ≡ some (
            check_bootfile card update stack
              (take 8 (drop (32 * j) slots))
              (uint32_value slots (32 * j + 28))
              (fatdirent_get_cluster slots (32 * j))
              (record b { reader = record b.reader { disk = record fs { buf = slots } } }))
  unfolding find_and_load_bootfile
  find_and_load_bootfile_first fs b fuel j root io slots droot lroot dio lio nz read l before here =
      let (y, e) = find_sfn_file_found card fs io_name fs.buf root_cluster fuel root droot lroot in
      let (z, f) =
        find_sfn_file_found card fs boot_name y (lookup_blocks io_name 0x10 root) fuel io dio lio in
      let e' : find_sfn_file card fuel root_cluster io_name true fs
          ≡ some (lookup_blocks io_name 0x10 root, record fs { buf = y }) =
        e in
      let t : (lookup_blocks boot_name 0x10 io == 0) ≡ false = ground arith in
      let at = cluster_to_block (record fs { buf = z }) (lookup_blocks boot_name 0x10 io) in
      let o : (n : ℕ) → 0 + n ≡ n = λ n. omega arith in
      let r = read-some card (record fs { buf = z }) at (rw block-buf read) in
      let start : Boot = record b {
        reader = record b.reader { disk = record fs { buf = slots } };
      } in
      rw (find_and_load_bootfile, e', f, t, r)
        (ap some (
          check_entries_first 16 j 0 start l
            (λ k m. ap (λ i. is_candidate slots i) (o (32 * k)) ∙ before k m)
            (ap (λ i. is_candidate slots i) (o (32 * j)) ∙ here)
          ∙ ap (λ i. check_slot i start) (o (32 * j))))
