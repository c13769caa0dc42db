-- ===== src/Boot/Pages.antt =====
-- The pages that `load_bootfile` of src/bootloader_sdihex.c writes of the bytes of a file.
use phatio.Prelude.{
  ℕ, zero, suc, ◌+◌, ◌-◌, ◌%◌, ◌^◌, ◌<◌, ◌≤◌, ◌≡◌, ◌≢◌, ◌⊎◌, inl, inr, refl, sym, ap, ◌∙◌, true,
  false, List, [], ◌∷◌, ◌++◌, length, length-append, length-set, get_or, set, get_or-set_self,
  get_or-set_ne, get_or-append_length, ◌==◌, arith,
}
use mathlib.Core.List.{append-nil, append_assoc}
use phatio.Boot.{Source, Program, spm_pagesize, load_page, blank_page, store_byte}
use phatio.Boot.Load.{store_all}

-- after `ds`: the full pages are in flash and the rest is in the buffer
pub record Stored (flash : ℕ → ℕ) (ds : List ℕ) (p : Program) : Type 0 where
  pub partial : p.prog_offset < spm_pagesize
  pub whole : p.prog_address + p.prog_offset ≡ length ds
  pub aligned : p.prog_address % spm_pagesize ≡ 0
  pub room : length p.prog_data ≡ spm_pagesize
  pub page : (k : ℕ) → k < p.prog_offset → get_or p.prog_data k 0 ≡ get_or ds (p.prog_address + k) 0
  pub below : (a : ℕ) → a < p.prog_address → p.flash a ≡ get_or ds a 0
  pub above : (a : ℕ) → p.prog_address ≤ a → p.flash a ≡ flash a

pub get_or-snoc :
    (ds : List ℕ) (b i : ℕ) → i < length ds → get_or (ds ++ (b ∷ [])) i 0 ≡ get_or ds i 0
get_or-snoc [] b i h = absurd (omega arith)
get_or-snoc (d ∷ ds) b zero h = refl
get_or-snoc (d ∷ ds) b (suc i) h = get_or-snoc ds b i (omega arith)

lt_suc_cases : (i d : ℕ) → i < d + 1 → (i < d) ⊎ (i ≡ d)
lt_suc_cases i d h = ground arith

pub below_cases : (a n : ℕ) → (a < n) ⊎ (n ≤ a)
below_cases a n = ground arith

pub zero_cases : (n : ℕ) → (n ≡ 0) ⊎ (n ≢ 0)
zero_cases n = ground arith

page_full : (n : ℕ) → (n + 1 ≡ spm_pagesize) ⊎ (n + 1 ≢ spm_pagesize)
page_full n = ground arith

-- what `load_page` leaves, of a page that holds the bytes from `address` on
pub load_page-inside :
    (address a : ℕ) (page : List ℕ) (old : ℕ → ℕ)
    → address ≤ a
    → a < address + spm_pagesize
    → load_page address page old a ≡ get_or page (a - address) 0
unfolding load_page
load_page-inside address a page old lo hi = ground arith

pub load_page-outside :
    (address a : ℕ) (page : List ℕ) (old : ℕ → ℕ)
    → (a < address) ⊎ (address + spm_pagesize ≤ a)
    → load_page address page old a ≡ old a
unfolding load_page
load_page-outside address a page old (inl h) = ground arith
load_page-outside address a page old (inr h) = ground arith

module _ {S : Type 0} (source : Source S) (update : ℕ → ℕ → ℕ) (flash : ℕ → ℕ) where
  -- the buffer with one byte more
  page_snoc :
      (ds : List ℕ) (b : ℕ) (p : Program)
      → Stored flash ds p
      → (k : ℕ) → k < p.prog_offset + 1
      → get_or (set p.prog_data p.prog_offset b) k 0
        ≡ get_or (ds ++ (b ∷ [])) (p.prog_address + k) 0
  page_snoc ds b p v k h = elim (lt_suc_cases k p.prog_offset h) [
    | inl l ↦
        get_or-set_ne p.prog_data p.prog_offset k b 0 (omega arith)
        ∙ (v.page k l ∙ sym (get_or-snoc ds b (p.prog_address + k) (omega (arith, v.whole))))
    | inr e ↦
        let i : p.prog_address + k ≡ length ds = omega (arith, v.whole) in
        rw e (get_or-set_self p.prog_data p.prog_offset b 0 (omega (arith, v.room, v.partial)))
        ∙ sym (ap (λ i. get_or (ds ++ (b ∷ [])) i 0) i ∙ get_or-append_length ds [] b 0)
  ]

  store_byte-kept :
      (b : ℕ) (p : Program)
      → p.prog_offset + 1 ≢ spm_pagesize
      → store_byte source update true b p ≡ record p {
        prog_data = set p.prog_data p.prog_offset b;
        prog_offset = p.prog_offset + 1;
        prog_crc = update p.prog_crc b;
      }
  unfolding store_byte
  store_byte-kept b p h =
      let t : (p.prog_offset + 1 == spm_pagesize) ≡ false = ground arith in rw t refl

  store_byte-full :
      (b : ℕ) (p : Program)
      → p.prog_offset + 1 ≡ spm_pagesize
      → p.prog_address < 2 ^ 16
      → store_byte source update true b p ≡ record {
        prog_data = blank_page;
        prog_offset = 0;
        prog_address = p.prog_address + spm_pagesize;
        prog_crc = update p.prog_crc b;
        flash = load_page p.prog_address (set p.prog_data p.prog_offset b) p.flash;
      }
  unfolding store_byte
  store_byte-full b p h l =
      let t : (p.prog_offset + 1 == spm_pagesize) ≡ true = ground arith in
      let m : p.prog_address % 2 ^ 16 ≡ p.prog_address = omega arith in rw t (rw m refl)

  blank_room : length blank_page ≡ spm_pagesize
  unfolding blank_page
  blank_room = refl

  kept-Stored :
      (ds : List ℕ) (b : ℕ) (p : Program)
      → Stored flash ds p
      → p.prog_offset + 1 ≢ spm_pagesize
      → Stored flash (ds ++ (b ∷ [])) (record p {
        prog_data = set p.prog_data p.prog_offset b;
        prog_offset = p.prog_offset + 1;
        prog_crc = update p.prog_crc b;
      })
  kept-Stored ds b p v h = record {
    partial = omega (arith, v.partial);
    whole = omega (arith, v.whole, length-append ds (b ∷ []));
    aligned = v.aligned;
    room = length-set p.prog_data p.prog_offset b ∙ v.room;
    page = page_snoc ds b p v;
    below = λ a l. v.below a l ∙ sym (get_or-snoc ds b a (omega (arith, v.whole)));
    above = v.above;
  }

  full-Stored :
      (ds : List ℕ) (b : ℕ) (p : Program)
      → Stored flash ds p
      → p.prog_offset + 1 ≡ spm_pagesize
      → Stored flash (ds ++ (b ∷ [])) (record {
        prog_data = blank_page;
        prog_offset = 0;
        prog_address = p.prog_address + spm_pagesize;
        prog_crc = update p.prog_crc b;
        flash = load_page p.prog_address (set p.prog_data p.prog_offset b) p.flash;
      })
  full-Stored ds b p v h = record {
    partial = omega arith;
    whole = omega (arith, v.whole, length-append ds (b ∷ []));
    aligned = omega (arith, v.aligned);
    room = blank_room;
    page = λ k l. absurd (omega arith);
    below = λ a l. written a l (below_cases a p.prog_address);
    above = λ a l.
        load_page-outside p.prog_address a (set p.prog_data p.prog_offset b) p.flash (inr l)
        ∙ v.above a (omega arith);
  }
    where
      written :
          (a : ℕ)
          → a < p.prog_address + spm_pagesize
          → (a < p.prog_address) ⊎ (p.prog_address ≤ a)
          → load_page p.prog_address (set p.prog_data p.prog_offset b) p.flash a
            ≡ get_or (ds ++ (b ∷ [])) a 0
      written a l (inl lo) =
          load_page-outside p.prog_address a (set p.prog_data p.prog_offset b) p.flash (inl lo)
          ∙ (v.below a lo ∙ sym (get_or-snoc ds b a (omega (arith, v.whole))))
      written a l (inr hi) =
          let i : p.prog_address + (a - p.prog_address) ≡ a = omega arith in
          load_page-inside p.prog_address a (set p.prog_data p.prog_offset b) p.flash hi l
          ∙ (page_snoc ds b p v (a - p.prog_address) (omega arith)
              ∙ ap (λ i. get_or (ds ++ (b ∷ [])) i 0) i)

  store_byte-Stored :
      (ds : List ℕ) (b : ℕ) (p : Program)
      → Stored flash ds p
      → length ds < 2 ^ 16
      → Stored flash (ds ++ (b ∷ [])) (store_byte source update true b p)
  store_byte-Stored ds b p v l = elim (page_full p.prog_offset) [
    | inl h ↦ rw (store_byte-full b p h (omega (arith, v.whole))) (full-Stored ds b p v h)
    | inr h ↦ rw (store_byte-kept b p h) (kept-Stored ds b p v h)
  ]

  pub store_all-Stored :
      (ds bs : List ℕ) (p : Program)
      → Stored flash ds p
      → length ds + length bs ≤ 2 ^ 16
      → Stored flash (ds ++ bs) (store_all source update true bs p)
  store_all-Stored ds [] p v l = rw (append-nil ds) v
  store_all-Stored ds (b ∷ bs) p v l = rw (sym (append_assoc ds (b ∷ []) bs)) (
      store_all-Stored (ds ++ (b ∷ [])) bs (store_byte source update true b p)
        (store_byte-Stored ds b p v (omega arith)) (omega (arith, length-append ds (b ∷ []))))
