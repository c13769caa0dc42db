-- ===== src/Support/MakeFs/Blocks.antt =====
-- The image that support/make_fs.c writes, as the blocks of a card.
use phatio.Prelude.{
  ℕ, zero, suc, ◌+◌, ◌-◌, ◌*◌, ◌<◌, ◌≤◌, ◌≡◌, ◌⊎◌, inl, inr, refl, ap, ap₂, ◌∙◌, Option, some, List,
  [], ◌∷◌, length, get_or, leb, ltb, ◌&&◌, arith, true,
}
use phatio.Support.MakeFs.{Image, copy}

abbrev pub bytes_from : ℕ → ℕ → Image → List ℕ
bytes_from zero a image = []
bytes_from (suc n) a image = image a ∷ bytes_from n (a + 1) image

abbrev pub card_of : Image → ℕ → Option (List ℕ)
card_of image block = some (bytes_from 512 (block * 512) image)

pub get_or-bytes_from :
    (n a i : ℕ) (image : Image) → i < n → get_or (bytes_from n a image) i 0 ≡ image (a + i)
get_or-bytes_from zero a i image h = absurd (omega arith)
get_or-bytes_from (suc n) a zero image h = let e : a ≡ a + 0 = omega arith in ap image e
get_or-bytes_from (suc n) a (suc i) image h =
    let e : a + 1 + i ≡ a + suc i = omega arith in
    get_or-bytes_from n (a + 1) i image (omega arith) ∙ ap image e

pub bytes_from_same :
    (n a : ℕ) (image : Image) (b : List ℕ)
    → length b ≡ n
    → ((i : ℕ) → i < n → image (a + i) ≡ get_or b i 0)
    → bytes_from n a image ≡ b
bytes_from_same zero a image [] l h = refl
bytes_from_same zero a image (c ∷ b) l h = absurd (omega (arith, l))
bytes_from_same (suc n) a image [] l h = absurd (omega (arith, l))
bytes_from_same (suc n) a image (c ∷ b) l h =
    let z : a ≡ a + 0 = omega arith in
    ap₂ (λ x xs. x ∷ xs) (ap image z ∙ h 0 (omega arith))
      (bytes_from_same n (a + 1) image b (omega (arith, l)) (λ i m.
        let e : a + 1 + i ≡ a + suc i = omega arith in ap image e ∙ h (suc i) (omega arith)))

-- what `memcpy` leaves
pub copy-inside :
    (address i : ℕ) (bytes : List ℕ) (image : Image)
    → i < length bytes
    → copy address bytes image (address + i) ≡ get_or bytes i 0
copy-inside address i bytes image h =
    let e : address + i - address ≡ i = omega arith in
    let t : (leb address (address + i) && ltb (address + i) (address + length bytes)) ≡ true =
      ground arith in
    rw (t, e) refl

pub copy-outside :
    (address a : ℕ) (bytes : List ℕ) (image : Image)
    → (a < address) ⊎ (address + length bytes ≤ a)
    → copy address bytes image a ≡ image a
copy-outside address a bytes image (inl h) = ground arith
copy-outside address a bytes image (inr h) = ground arith
