-- ===== src/CharSource.antt =====
-- The characters that the reader of scripts takes: from a string, src/char_source.c, and from a file,
-- src/file_char_source.c. `lio_stop` is its effect on the flag `lio_stopped`.
use phatio.Prelude.{
  ℕ, zero, suc, ◌+◌, ◌%◌, ◌≡◌, ◌≢◌, refl, Bool, true, Option, List, [], ◌∷◌, ◌++◌, length, ltb,
  ◌==◌, if◌then◌else◌, arith,
}
use phatio.Fat.{Disk, byte_at, read_block, cluster_to_block, get_next_cluster}

-- The string is what is left of it from the pointer on.
pub record StringSource : Type 0 where
  pub string_buf : List ℕ
  pub putback : ℕ

unfoldable pub string_source : List ℕ → StringSource
string_source buffer = record { string_buf = buffer; putback = 0 }

-- the case of an empty `putback`
unfoldable pub take_char : List ℕ → ℕ × StringSource
take_char [] = (0, record { string_buf = []; putback = 0 })
take_char (c ∷ cs) =
    if c == 0
    then (0, record { string_buf = c ∷ cs; putback = 0 })
    else (c, record { string_buf = cs; putback = 0 })

unfoldable pub string_reader : StringSource → ℕ × StringSource
unfolding take_char
string_reader s =
    if s.putback == 0 then take_char s.string_buf else (s.putback, record s { putback = 0 })

unfoldable pub string_putbacker : ℕ → StringSource → StringSource
string_putbacker c s = record s { putback = c }

-- A file that is read: `buf_index` is an int16_t as its bit pattern.
pub record FileSource : Type 0 where
  pub disk : Disk
  pub file_cluster : ℕ
  pub buf_index : ℕ
  pub lio_stopped : Bool

module _ (card : ℕ → Option (List ℕ)) where
  unfoldable pub file_source : ℕ → FileSource → FileSource
  unfolding read_block cluster_to_block
  file_source cluster f =
      let (ok, disk) = read_block card (cluster_to_block f.disk cluster) f.disk in
      if cluster == 0
      then record f { file_cluster = cluster; buf_index = 65535; lio_stopped = true }
      else if ok
      then record f { disk = disk; file_cluster = cluster; buf_index = 0 }
      else record f { disk = disk; file_cluster = cluster; buf_index = 65535; lio_stopped = true }

  -- what follows `if (buf_index == 512)`
  unfoldable pub read_char : FileSource → ℕ × FileSource
  read_char f =
      let c = byte_at f.disk.buf f.buf_index in
      if ltb f.buf_index 512
      then (c, record f { buf_index = if c == 0 then 65535 else f.buf_index + 1 })
      else (0, f)

  unfoldable pub file_reader : FileSource → ℕ × FileSource
  unfolding file_source read_char get_next_cluster
  file_reader f =
      let (next, disk) = get_next_cluster card f.disk f.file_cluster in
      read_char (if f.buf_index == 512 then file_source next (record f { disk = disk }) else f)

unfoldable pub file_putbacker : ℕ → FileSource → FileSource
file_putbacker c f = record f { buf_index = (f.buf_index + 65535) % 65536 }

-- characters read one after the other
abbrev pub read_chars : ℕ → StringSource → List ℕ × StringSource
read_chars zero s = ([], s)
read_chars (suc n) s =
    let (c, s') = string_reader s in let (cs, s1) = read_chars n s' in (c ∷ cs, s1)

abbrev pub HasNoZero : List ℕ → Type 0
HasNoZero [] = Unit
HasNoZero (c ∷ cs) = (c ≢ 0) × HasNoZero cs

-- A string is read character by character. One that is put back, and is not 0, is the next one read, and
-- the string goes on behind it.
pub string_reader-string_source :
    (cs ds : List ℕ) (c : ℕ)
    → HasNoZero cs
    → c ≢ 0
    → (read_chars (length cs) (string_source (cs ++ ds)) ≡ (cs, string_source ds))
      × (string_reader (string_putbacker c (string_source ds)) ≡ (c, string_source ds))
unfolding string_source string_reader take_char string_putbacker
string_reader-string_source cs ds c h nc = (reads cs h, ground arith)
  where
    reads :
        (bs : List ℕ)
        → HasNoZero bs
        → read_chars (length bs) (string_source (bs ++ ds)) ≡ (bs, string_source ds)
    reads [] p = refl
    reads (b ∷ bs) p = ground (arith, reads bs p.1)
