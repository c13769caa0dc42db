-- ===== src/ShortName.antt =====
-- Short file names: `sfn_checksum`, `fat_sfn_safe_char` and `fat_sfn` of src/fat_impl.c.
-- A C string is the list of its bytes; what is read past the end is the terminating 0.
pub mod Checksum
pub mod Form
pub mod Plain
use phatio.Prelude.{
  ℕ, zero, suc, ◌+◌, ◌-◌, ◌*◌, ◌/◌, ◌%◌, Bool, true, false, not, ◌&&◌, ◌||◌, Option, none, some,
  List, [], ◌∷◌, ◌++◌, bit_and, bit_or, get_or, length, take, replicate, ltb, leb, ◌==◌,
  if◌then◌else◌,
}

-- one round of the loop of `sfn_checksum`
unfoldable pub checksum_step : ℕ → ℕ → ℕ
checksum_step checksum c = (bit_or (bit_and checksum 1 * 128) (bit_and checksum 0xfe / 2) + c) % 256

unfoldable pub checksum_from : ℕ → List ℕ → ℕ
checksum_from checksum [] = checksum
checksum_from checksum (c ∷ sfn) = checksum_from (checksum_step checksum c) sfn

-- on the 11 bytes of a short name
unfoldable pub sfn_checksum : List ℕ → ℕ
unfolding checksum_from checksum_step
sfn_checksum sfn = checksum_from 0 (take 11 sfn)

-- the string `valid`: $%'-_@~'!()
abbrev pub valid : List ℕ
valid = b'$' ∷ b'%' ∷ 39 ∷ b'-' ∷ b'_' ∷ b'@' ∷ b'~' ∷ 39 ∷ b'!' ∷ b'(' ∷ b')' ∷ []

unfoldable pub find_valid : ℕ → List ℕ → ℕ
find_valid c [] = b'_'
find_valid c (v ∷ vs) = if c == v then c else find_valid c vs

unfoldable pub fat_sfn_safe_char : ℕ → ℕ
unfolding find_valid
fat_sfn_safe_char c =
    if c == b' ' || c == b'.'
    then 0
    else if leb b'a' c && leb c b'z'
    then c - 32
    else if (leb b'A' c && leb c b'Z') || (leb b'0' c && leb c b'9')
    then c
    else find_valid c valid

abbrev pub char_at : List ℕ → ℕ → ℕ
char_at s i = get_or s i 0

-- `lfn[i] == '.' && lfn[i + 1] != '.' && lfn[i + 1] != 0`, on the byte and what follows it
abbrev pub splits : ℕ → List ℕ → Bool
splits c rest = c == b'.' && not (char_at rest 0 == b'.') && not (char_at rest 0 == 0)

-- The first loop of `fat_sfn`: the value of `len + 1`, and `lastdot` with `none` for -1.
unfoldable pub scan : List ℕ → ℕ → Option ℕ → ℕ × Option ℕ
scan [] i lastdot = (i, lastdot)
scan (c ∷ rest) i lastdot =
    if c == 0 || i == 255
    then (i, lastdot)
    else scan rest (i + 1) (if splits c rest then some i else lastdot)

-- `lastdot <= 0 ? a : lastdot`, and the same with `lastdot + 1`
abbrev pub base_end : Option ℕ → ℕ → ℕ
base_end none end_ = end_
base_end (some i) end_ = if i == 0 then end_ else i

abbrev pub extension_start : Option ℕ → ℕ → ℕ
extension_start none end_ = end_
extension_start (some i) end_ = if i == 0 then end_ else i + 1

-- The loops that copy: `rounds` bytes from index `i` on, while fewer than `cap` are written. The
-- list is what stands in `sfn` so far, so its length is `j`.
unfoldable pub copy_safe : List ℕ → ℕ → ℕ → ℕ → List ℕ → List ℕ
copy_safe lfn cap zero i sfn = sfn
copy_safe lfn cap (suc rounds) i sfn =
    let c = fat_sfn_safe_char (char_at lfn i) in
    let rest = copy_safe lfn cap rounds (i + 1) (if c == 0 then sfn else sfn ++ c ∷ []) in
    if ltb (length sfn) cap then rest else sfn

-- trailing spaces up to index `n`
abbrev pub pad : ℕ → List ℕ → List ℕ
pad n sfn = sfn ++ replicate (n - length sfn) b' '

-- `j > 8`: bytes 6 and 7 become "~1", and byte 8 is written over by the extension
abbrev pub shorten : List ℕ → List ℕ
shorten base = if ltb 8 (length base) then take 6 base ++ b'~' ∷ b'1' ∷ [] else pad 8 base

-- what follows the first loop
unfoldable pub build : List ℕ → ℕ × Option ℕ → List ℕ
unfolding copy_safe
build lfn (end_, lastdot) =
    let base = copy_safe lfn 9 (base_end lastdot end_) 0 [] in
    let start = extension_start lastdot end_ in
    pad 11 (copy_safe lfn 11 (end_ - start) start (shorten base))

unfoldable pub fat_sfn : List ℕ → List ℕ
unfolding scan build
fat_sfn lfn = build lfn (scan lfn 0 none)
