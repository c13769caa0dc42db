-- ===== src/ShortName/Checksum.antt =====
-- `sfn_checksum` of src/fat_impl.c: what it detects.
use phatio.Prelude.{
  ℕ, ◌+◌, ◌*◌, ◌/◌, ◌%◌, ◌<◌, ◌≡◌, ◌≢◌, refl, Bool, true, List, [], ◌∷◌, ◌++◌, take, take_all,
  length, length-append, ◌==◌, bit_and, bit_or, ==_iff, arith,
}
use phatio.Prelude.Bytes.{all_below, all_below_sound}
use phatio.ShortName.{checksum_step, checksum_from, sfn_checksum}

abbrev rotate : ℕ → ℕ
rotate c = bit_or (bit_and c 1 * 128) (bit_and c 0xfe / 2)

abbrev rotate_law : ℕ → Bool
rotate_law c = rotate c == (c % 2 * 128 + c / 2)

rotate_table : all_below 256 rotate_law ≡ true
rotate_table = refl

rotate_lem : (c : ℕ) → c < 256 → rotate c ≡ c % 2 * 128 + c / 2
rotate_lem c h = (==_iff _ _).0 (all_below_sound 256 rotate_law c rotate_table h)

checksum_step-lt : (s c : ℕ) → checksum_step s c < 256
unfolding checksum_step
checksum_step-lt s c = omega arith

step-left : (s t c : ℕ) → s < 256 → t < 256 → checksum_step s c ≡ checksum_step t c → s ≡ t
unfolding checksum_step
step-left s t c hs ht e = omega (arith, rotate_lem s hs, rotate_lem t ht)

step-right : (s c d : ℕ) → c < 256 → d < 256 → checksum_step s c ≡ checksum_step s d → c ≡ d
unfolding checksum_step
step-right s c d hc hd e = omega arith

from-left :
    (sfn : List ℕ) (s t : ℕ) → s < 256 → t < 256 → checksum_from s sfn ≡ checksum_from t sfn → s ≡ t
unfolding checksum_from
from-left [] s t hs ht e = e
from-left (c ∷ sfn) s t hs ht e = step-left s t c hs ht (
    from-left sfn (checksum_step s c) (checksum_step t c) (checksum_step-lt s c)
      (checksum_step-lt t c) e)

from-differ :
    (before after : List ℕ) (s c d : ℕ)
    → c < 256
    → d < 256
    → checksum_from s (before ++ c ∷ after) ≡ checksum_from s (before ++ d ∷ after)
    → c ≡ d
unfolding checksum_from
from-differ [] after s c d hc hd e = step-right s c d hc hd (
    from-left after (checksum_step s c) (checksum_step s d) (checksum_step-lt s c)
      (checksum_step-lt s d) e)
from-differ (b ∷ before) after s c d hc hd e =
    from-differ before after (checksum_step s b) c d hc hd e

-- A change of one byte of an 11-byte short name changes its checksum.
pub sfn_checksum-ne :
    (before after : List ℕ) (c d : ℕ)
    → length before + length after ≡ 10
    → c < 256
    → d < 256
    → c ≢ d
    → sfn_checksum (before ++ c ∷ after) ≢ sfn_checksum (before ++ d ∷ after)
unfolding sfn_checksum
sfn_checksum-ne before after c d len hc hd ne e =
    ne (from-differ before after 0 c d hc hd (rw (whole c, whole d) at e))
  where
    whole : (x : ℕ) → take 11 (before ++ x ∷ after) ≡ before ++ x ∷ after
    whole x = take_all 11 _ (omega (arith, length-append before (x ∷ after)))
