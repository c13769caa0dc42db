-- ===== src/Boot/Check.antt =====
-- `check_bootfile` of src/bootloader_sdihex.c on a file of the card.
use phatio.Prelude.{
  ℕ, ◌<◌, ◌≤◌, ◌≡◌, ◌≢◌, ◌^◌, refl, ap, ◌∙◌, Bool, true, false, Option, List, [], ◌∷◌, ◌++◌, length,
  take, ◌==◌, if◌then◌else◌, arith,
}
use phatio.Fat.{Disk, cluster_to_block, read_block}
use phatio.Fat.Walk.{Directory, block, block-buf, read-some}
use phatio.Boot.{Program, last_page, load_from}
use phatio.Boot.Load.{Line, IsLine, AreLines, IsGap, file, bytes_of, store_all, load_from-file}
use phatio.Boot.Pages.{Stored}
use phatio.Boot.Written.{Loaded, crc_of, store_all-crc, store_all-dry, store_all-Loaded}
use phatio.Boot.Card.{Reader, Boot, from_card, load_bootfile, name_crc, is_new, check_bootfile}
use phatio.Boot.Chain.{Holds, AreBlocks, concat, next_char-Reads}
use phatio.Boot.Keeps.{OnlyBuffer, read_block-OnlyBuffer, load_from-Kept, next_char-OnlyBuffer}

-- The chain of clusters from `start` on holds `text`, and something behind it.
pub record Contents (card : ℕ → Option (List ℕ)) (sd : Disk) (start : ℕ) (text : List ℕ)
    : Type 0 where
  pub blocks : List (List ℕ)
  pub rest : List ℕ
  pub chain : Directory card sd start blocks
  pub whole : AreBlocks blocks
  pub holds : concat blocks ≡ text ++ rest

-- a boot file: records, with a last one of type 1
pub record BootFile : Type 0 where
  pub gap : List ℕ
  pub lines : List Line
  pub last : Line

abbrev pub text_of : BootFile → List ℕ
text_of f = f.gap ++ file f.lines f.last

abbrev pub data_of : BootFile → List ℕ
data_of f = bytes_of f.lines

pub some_text : (gap : List ℕ) (ls : List Line) (last : Line) → gap ++ file ls last ≢ []
some_text [] [] last e = absurd (omega (arith, ap length e))
some_text [] (l ∷ ls) last e = absurd (omega (arith, ap length e))
some_text (c ∷ gap) ls last e = absurd (omega (arith, ap length e))

pub record IsBootFile (f : BootFile) : Type 0 where
  pub before : IsGap f.gap
  pub records : AreLines f.lines
  pub final : IsLine f.last
  pub no_bytes : f.last.bytes ≡ []
  pub short : length (text_of f) < 2 ^ 32
  pub fits : length (data_of f) ≤ 2 ^ 16

module _ (card : ℕ → Option (List ℕ)) (sd : Disk) where
  -- the reader after the first block has been read
  abbrev opened : ℕ → Reader → Reader
  opened start r = record {
    disk = (read_block card (cluster_to_block r.disk start) r.disk).1;
    offset = 0;
    cluster = start;
  }

  first_block :
      (text : List ℕ) (start : ℕ) (bs : List (List ℕ)) (rest : List ℕ) (r : Reader)
      → text ≢ []
      → Directory card sd start bs
      → AreBlocks bs
      → concat bs ≡ text ++ rest
      → OnlyBuffer card sd r
      → Holds card sd (opened start r) text
  first_block [] start bs rest r ne d w e h = absurd (ne refl)
  first_block (c ∷ text) start [] rest r ne d w e h = absurd (omega (arith, ap length e))
  first_block (c ∷ text) start (b ∷ bs) rest r ne (block n p q d) w e h =
      let y : List ℕ = r.disk.buf in
      record {
        here = b;
        later = bs;
        rest = rest;
        chain = block n p q d;
        loaded =
            ap (λ d. (read_block card (cluster_to_block d start) d).1) h
            ∙ read-some card (record sd { buf = y })
                (cluster_to_block (record sd { buf = y }) start) (rw block-buf p);
        whole = w.0;
        blocks = w.1;
        inside = omega arith;
        follows = e;
      }

module _ (card : ℕ → Option (List ℕ)) (sd : Disk) (update : ℕ → ℕ → ℕ) (stack : List ℕ)
    (room : length stack ≡ 128) (start : ℕ) (f : BootFile) (v : IsBootFile f)
    (on_card : Contents card sd start (text_of f)) where
  abbrev size : ℕ
  size = length (text_of f)

  abbrev at_start : (ℕ → ℕ) → Program
  at_start flash = record {
    prog_data = stack;
    prog_offset = 0;
    prog_address = 0;
    prog_crc = 0;
    flash = flash;
  }

  opened-Holds :
      (r : Reader) → OnlyBuffer card sd r → Holds card sd (opened card sd start r) (text_of f)
  opened-Holds r h =
      first_block card sd (text_of f) start on_card.blocks on_card.rest r
        (some_text f.gap f.lines f.last) on_card.chain on_card.whole on_card.holds h

  abbrev stored : Bool → (ℕ → ℕ) → Program
  stored program flash =
      last_page (from_card card) update program 1
        (store_all (from_card card) update program (data_of f) (at_start flash))

  abbrev load : Bool → Boot → Program × Reader
  load program b =
      load_from (from_card card) update size 0 size program (at_start b.flash)
        (opened card sd start b.reader)

  load_lem :
      (program : Bool) (b : Boot)
      → OnlyBuffer card sd b.reader
      → (load program b).0 ≡ stored program b.flash
  load_lem program b h =
      load_from-file (from_card card) update (Holds card sd) (next_char-Reads card sd) f.gap f.lines
        f.last program (at_start b.flash) (opened card sd start b.reader) v.before v.records v.final
        v.no_bytes v.short (opened-Holds b.reader h)

  load-OnlyBuffer :
      (program : Bool) (b : Boot)
      → OnlyBuffer card sd b.reader
      → OnlyBuffer card sd (load program b).1
  load-OnlyBuffer program b h =
      load_from-Kept (from_card card) update (OnlyBuffer card sd) (next_char-OnlyBuffer card sd)
        size 0 size program (at_start b.flash) (opened card sd start b.reader)
        (read_block-OnlyBuffer card sd b.reader.disk (cluster_to_block b.reader.disk start) h)

  -- nothing is stored yet
  nothing_Stored : (flash : ℕ → ℕ) → Stored flash [] (at_start flash)
  nothing_Stored flash = record {
    partial = omega arith;
    whole = refl;
    aligned = refl;
    room = room;
    page = λ k l. absurd (omega arith);
    below = λ a l. absurd (omega arith);
    above = λ a l. refl;
  }

  load_bootfile_lem :
      (program : Bool) (b : Boot)
      → OnlyBuffer card sd b.reader
      → load_bootfile card update stack start size program b ≡ (
        crc_of update 0 (data_of f),
        record b { reader = (load program b).1; flash = (stored program b.flash).flash },
      )
  unfolding load_bootfile
  load_bootfile_lem program b h =
      let g : Program → ℕ × Boot =
        λ q. (q.prog_crc, record b { reader = (load program b).1; flash = q.flash }) in
      let k : ℕ → ℕ × Boot = λ c.
        (c, record b { reader = (load program b).1; flash = (stored program b.flash).flash }) in
      ap g (load_lem program b h)
      ∙ ap k (store_all-crc (from_card card) update b.flash program (data_of f) (at_start b.flash))

  -- after the file has been read, and after it has been loaded
  abbrev tried : Boot → Boot
  tried b = record b { reader = (load false b).1; flash = (stored false b.flash).flash }

  abbrev loaded : Boot → Boot
  loaded b = record (tried b) {
    reader = (load true (tried b)).1;
    flash = (stored true (tried b).flash).flash;
  }

  abbrev crc : ℕ
  crc = crc_of update 0 (data_of f)

  check_bootfile_new :
      (name : List ℕ) (b : Boot)
      → OnlyBuffer card sd b.reader
      → is_new name b ≡ true
      → check_bootfile card update stack name size start b ≡ (
          if crc == name_crc name
          then if name_crc name == crc
            then (true, record (loaded b) { version = take 4 name })
            else (false, loaded b)
          else (false, tried b))
  unfolding check_bootfile
  check_bootfile_new name b h n =
      let h' = load-OnlyBuffer false b h in
      rw (n, load_bootfile_lem false b h, load_bootfile_lem true (tried b) h') refl

  -- A new file of whole records, of at most 28 KB of bytes, on a chain of readable blocks, of the
  -- name that its checksum asks for, is loaded: flash has its bytes from address 0 on, the pages behind
  -- that of the last one are unchanged, and the version is the new one.
  pub check_bootfile-Loaded :
      (name : List ℕ) (b : Boot)
      → length (data_of f) ≤ 0x7000
      → OnlyBuffer card sd b.reader
      → is_new name b ≡ true
      → name_crc name ≡ crc_of update 0 (data_of f)
      → let (loaded, after) = check_bootfile card update stack name (length (text_of f)) start b in
        (loaded ≡ true) × ((after.version ≡ take 4 name) × Loaded b.flash (data_of f) after.flash)
  check_bootfile-Loaded name b small h n c =
      let t : (crc == name_crc name) ≡ true = ground (arith, c) in
      let u : (name_crc name == crc) ≡ true = ground (arith, c) in
      let e : check_bootfile card update stack name size start b
          ≡ (true, record (loaded b) { version = take 4 name }) =
        rw (check_bootfile_new name b h n, t, u) refl in
      let dry = store_all-dry (from_card card) update b.flash (data_of f) (at_start b.flash) in
      rw e (
        refl,
        (
          refl,
          rw dry (
              store_all-Loaded (from_card card) update b.flash (data_of f) (at_start b.flash)
                (nothing_Stored b.flash) v.fits),
        ),
      )

  -- A new file of whole records, of at most 64 KB of bytes, whose checksum is not the one in its
  -- name is refused, and neither flash nor the version has changed. The file is on a chain of
  -- readable blocks of the card, and the disk of the reader is the one of the card but for its
  -- buffer.
  pub check_bootfile_refused :
      (name : List ℕ) (b : Boot)
      → OnlyBuffer card sd b.reader
      → is_new name b ≡ true
      → name_crc name ≢ crc_of update 0 (data_of f)
      → let (loaded, after) = check_bootfile card update stack name (length (text_of f)) start b in
        (loaded ≡ false) × ((after.version ≡ b.version) × (after.flash ≡ b.flash))
  check_bootfile_refused name b h n c =
      let t : (crc == name_crc name) ≡ false = ground (arith, c) in
      let e : check_bootfile card update stack name size start b ≡ (false, tried b) =
        rw (check_bootfile_new name b h n, t) refl in
      rw e
        (refl, (refl, store_all-dry (from_card card) update b.flash (data_of f) (at_start b.flash)))
