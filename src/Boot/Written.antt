-- ===== src/Boot/Written.antt =====
-- What flash and the checksum are after the last record that `load_bootfile` of
-- src/bootloader_sdihex.c reads.
use phatio.Prelude.{
  ℕ, ◌+◌, ◌-◌, ◌%◌, ◌^◌, ◌<◌, ◌≤◌, ◌≡◌, ◌≢◌, ◌⊎◌, inl, inr, ap, ◌∙◌, Bool, true, false, not, ◌&&◌,
  List, [], ◌∷◌, length, get_or, ◌==◌, arith,
}
use phatio.Boot.{Source, Program, load_page, store_byte, last_page}
use phatio.Boot.Load.{store_all}
use phatio.Boot.Pages.{
  Stored, below_cases, zero_cases, load_page-inside, load_page-outside, store_all-Stored,
}

abbrev pub crc_of : (ℕ → ℕ → ℕ) → ℕ → List ℕ → ℕ
crc_of update crc [] = crc
crc_of update crc (b ∷ bs) = crc_of update (update crc b) bs

-- Flash after the last record: the bytes, and every page that starts behind them as it was.
pub record Loaded (flash : ℕ → ℕ) (ds : List ℕ) (after : ℕ → ℕ) : Type 0 where
  pub written : (a : ℕ) → a < length ds → after a ≡ get_or ds a 0
  pub unchanged : (a : ℕ) → length ds + a % 128 ≤ a → after a ≡ flash a

module _ {S : Type 0} (source : Source S) (update : ℕ → ℕ → ℕ) (flash : ℕ → ℕ) where
  full_pages :
      (ds : List ℕ) (p : Program) → Stored flash ds p → p.prog_offset ≡ 0 → Loaded flash ds p.flash
  full_pages ds p v z = record {
    written = λ a h. v.below a (omega (arith, v.whole));
    unchanged = λ a h. v.above a (omega (arith, v.whole));
  }

  partial_page :
      (ds : List ℕ) (p : Program)
      → Stored flash ds p
      → p.prog_offset ≢ 0
      → Loaded flash ds (load_page p.prog_address p.prog_data p.flash)
  partial_page ds p v z = record {
    written = λ a h. byte a h (below_cases a p.prog_address);
    unchanged = λ a h.
        load_page-outside p.prog_address a p.prog_data p.flash
          (inr (omega (arith, v.whole, v.aligned, z)))
        ∙ v.above a (omega (arith, v.whole));
  }
    where
      byte :
          (a : ℕ)
          → a < length ds
          → (a < p.prog_address) ⊎ (p.prog_address ≤ a)
          → load_page p.prog_address p.prog_data p.flash a ≡ get_or ds a 0
      byte a h (inl lo) =
          load_page-outside p.prog_address a p.prog_data p.flash (inl lo) ∙ v.below a lo
      byte a h (inr hi) =
          let i : p.prog_address + (a - p.prog_address) ≡ a = omega arith in
          load_page-inside p.prog_address a p.prog_data p.flash hi
            (omega (arith, v.whole, v.partial))
          ∙ (v.page (a - p.prog_address) (omega (arith, v.whole)) ∙ ap (λ i. get_or ds i 0) i)

  last_page-Loaded :
      (ds : List ℕ) (p : Program)
      → Stored flash ds p
      → length ds ≤ 2 ^ 16
      → Loaded flash ds (last_page source update true 1 p).flash
  unfolding last_page
  last_page-Loaded ds p v l = elim (zero_cases p.prog_offset) [
    | inl z ↦
        let t : (not (p.prog_offset == 0) && true) ≡ false = ground arith in
        rw t (full_pages ds p v z)
    | inr z ↦
        let t : (not (p.prog_offset == 0) && true) ≡ true = ground arith in
        let m : p.prog_address % 2 ^ 16 ≡ p.prog_address = omega (arith, v.whole) in
        rw t (rw m (partial_page ds p v z))
  ]

  store_byte-crc :
      (program : Bool) (b : ℕ) (p : Program)
      → (store_byte source update program b p).prog_crc ≡ update p.prog_crc b
  unfolding store_byte
  store_byte-crc program b p = ground arith

  pub store_all-crc :
      (program : Bool) (bs : List ℕ) (p : Program)
      → (last_page source update program 1 (store_all source update program bs p)).prog_crc
        ≡ crc_of update p.prog_crc bs
  unfolding last_page
  store_all-crc program [] p = ground arith
  store_all-crc program (b ∷ bs) p =
      store_all-crc program bs (store_byte source update program b p)
      ∙ ap (λ c. crc_of update c bs) (store_byte-crc program b p)

  -- without `program` nothing is written
  store_byte-dry : (b : ℕ) (p : Program) → (store_byte source update false b p).flash ≡ p.flash
  unfolding store_byte
  store_byte-dry b p = ground arith

  pub store_all-dry :
      (bs : List ℕ) (p : Program)
      → (last_page source update false 1 (store_all source update false bs p)).flash ≡ p.flash
  unfolding last_page
  store_all-dry [] p = ground arith
  store_all-dry (b ∷ bs) p =
      store_all-dry bs (store_byte source update false b p) ∙ store_byte-dry b p

  pub store_all-Loaded :
      (ds : List ℕ) (p : Program)
      → Stored flash [] p
      → length ds ≤ 2 ^ 16
      → Loaded flash ds (last_page source update true 1 (store_all source update true ds p)).flash
  store_all-Loaded ds p v l =
      last_page-Loaded ds (store_all source update true ds p)
        (store_all-Stored source update flash [] ds p v (omega arith)) l
