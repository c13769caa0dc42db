-- ===== src/Boot/Card.antt =====
-- The boot loader on the card, src/bootloader_sdihex.c: `next_char` along the clusters of a file,
-- `load_bootfile`, and the search for a new file. `stack` is what the local array holds at first.
use phatio.Prelude.{
  ℕ, zero, suc, ◌+◌, ◌*◌, ◌%◌, ◌^◌, Bool, true, false, not, ◌&&◌, ◌||◌, Option, none, some, List,
  [], ◌∷◌, get_or, take, drop, bit_and, bit_or, leb, ◌==◌, if◌then◌else◌,
}
use phatio.Fat.{
  Disk, byte_at, uint32_value, fatdirent_get_cluster, root_cluster, cluster_to_block, read_block,
  get_next_cluster, find_sfn_file,
}
use phatio.Boot.{Source, hex_byte, load_from}

-- `fs`, `offset` and `cluster`
pub record Reader : Type 0 where
  pub disk : Disk
  pub offset : ℕ
  pub cluster : ℕ

abbrev pub take_byte : Reader → ℕ × Reader
take_byte r = (byte_at r.disk.buf r.offset, record r { offset = r.offset + 1 })

-- The memories that the loader writes: flash, and the four bytes at PHATIO_VERSION_ADDR of the EEPROM.
pub record Boot : Type 0 where
  pub reader : Reader
  pub flash : ℕ → ℕ
  pub version : List ℕ

abbrev pub io_name : List ℕ
io_name = 73 ∷ 79 ∷ 32 ∷ 32 ∷ 32 ∷ 32 ∷ 32 ∷ 32 ∷ 32 ∷ 32 ∷ 32 ∷ []

abbrev pub boot_name : List ℕ
boot_name = 66 ∷ 79 ∷ 79 ∷ 84 ∷ 32 ∷ 32 ∷ 32 ∷ 32 ∷ 32 ∷ 32 ∷ 32 ∷ []

-- the characters that the name of a boot file can have
abbrev pub is_name_char : ℕ → Bool
is_name_char c = (leb 65 c && leb c 88) || (leb 48 c && leb c 57)

-- the loop that counts such characters, with the rounds left
unfoldable pub count_name : List ℕ → ℕ → ℕ → ℕ → ℕ
count_name buf i zero c = c
count_name buf i (suc n) c =
    let rest = count_name buf i n (c + 1) in if is_name_char (byte_at buf (i + c)) then rest else c

-- the entry at `i` is that of a file NNNNNNNN.HEX
unfoldable pub is_bootfile : List ℕ → ℕ → Bool
unfolding count_name
is_bootfile buf i =
    not (byte_at buf i == 0)
    && ((bit_and (byte_at buf (i + 11)) 0xd8 == 0)
        && ((count_name buf i 8 0 == 8)
            && ((byte_at buf (i + 8) == 72)
                && ((byte_at buf (i + 9) == 69) && (byte_at buf (i + 10) == 88)))))

-- `hex_byte(name[4], name[5]) << 8 | hex_byte(name[6], name[7])`
abbrev pub name_crc : List ℕ → ℕ
name_crc name =
    bit_or (hex_byte (get_or name 4 0) (get_or name 5 0) * 256)
      (hex_byte (get_or name 6 0) (get_or name 7 0))
    % 2 ^ 16

-- `strncmp(a, b, n) == 0` from the byte `i` on
abbrev strncmp_eq : ℕ → ℕ → List ℕ → List ℕ → Bool
strncmp_eq zero i a b = true
strncmp_eq (suc n) i a b =
    let rest = strncmp_eq n (i + 1) a b in
    if get_or a i 0 == get_or b i 0 then if get_or a i 0 == 0 then true else rest else false

-- `version[0] == 'X' || strncmp(name, version, 4) != 0`
abbrev pub is_new : List ℕ → Boot → Bool
is_new name b = (get_or b.version 0 0 == 88) || not (strncmp_eq 4 0 name b.version)

module _ (card : ℕ → Option (List ℕ)) where
  unfoldable pub next_char : Reader → ℕ × Reader
  next_char r =
      let (next, d) = get_next_cluster card r.disk r.cluster in
      let d' = (read_block card (cluster_to_block d next) d).1 in
      if r.offset == 512
      then if next == 0
        then (0, record { disk = d; offset = 512; cluster = 0 })
        else take_byte (record { disk = d'; offset = 0; cluster = next })
      else take_byte r

  abbrev pub from_card : Source Reader
  from_card = record { next_char = next_char; at_end = λ r. r.cluster == 0 }

  module _ (update : ℕ → ℕ → ℕ) (stack : List ℕ) where
    -- the crc, and the memories after it
    unfoldable pub load_bootfile : ℕ → ℕ → Bool → Boot → ℕ × Boot
    load_bootfile start size program b =
        let d = (read_block card (cluster_to_block b.reader.disk start) b.reader.disk).1 in
        let (p, r) =
          load_from from_card update size 0 size program
            (record {
              prog_data = stack;
              prog_offset = 0;
              prog_address = 0;
              prog_crc = 0;
              flash = b.flash;
            })
            (record { disk = d; offset = 0; cluster = start }) in
        (p.prog_crc, record b { reader = r; flash = p.flash })

    unfoldable pub check_bootfile : List ℕ → ℕ → ℕ → Boot → Bool × Boot
    check_bootfile name size start b =
        let (actual_crc, b₁) = load_bootfile start size false b in
        let (again, b₂) = load_bootfile start size true b₁ in
        if is_new name b
        then if actual_crc == name_crc name
          then if name_crc name == again
            then (true, record b₂ { version = take 4 name })
            else (false, b₂)
          else (false, b₁)
        else (true, b)

    -- the loop over the entries of the block, with the rounds left
    unfoldable pub check_entries : ℕ → ℕ → Boot → Bool × Boot
    unfolding is_bootfile
    check_entries zero i b = (true, b)
    check_entries (suc n) i b =
        let buf = b.reader.disk.buf in
        let size = uint32_value buf (i + 28) in
        let checked = check_bootfile (take 8 (drop i buf)) size (fatdirent_get_cluster buf i) b in
        let later = check_entries n (i + 32) b in
        if is_bootfile buf i && not (size == 0) then checked else later

    -- on fuel for the two searches
    unfoldable pub find_and_load_bootfile : ℕ → Disk → Boot → Option (Bool × Boot)
    find_and_load_bootfile fuel fs b = elim (find_sfn_file card fuel root_cluster io_name true fs) [
      | none ↦ none
      | some (io, d) ↦ elim (find_sfn_file card fuel io boot_name true d) [
        | none ↦ none
        | some (boot_dir, d') ↦
            if boot_dir == 0
            then some (true, record b { reader = record b.reader { disk = d' } })
            else some (
                check_entries 16 0 (record b {
                  reader = record b.reader {
                    disk = (read_block card (cluster_to_block d' boot_dir) d').1;
                  };
                }))
      ]
    ]
