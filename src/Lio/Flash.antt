-- ===== src/Lio/Flash.antt =====
-- `store_expression` of src/lio_run.c. Memory is the bytes by their address. `write_to_flash` is a function
-- of the boot loader, which copies a page.
use phatio.Prelude.{
  ℕ, zero, suc, ◌+◌, ◌-◌, ◌*◌, ◌<◌, ◌≤◌, ◌≡◌, ◌⊎◌, inl, inr, refl, sym, ap, ◌∙◌, Bool, true, false,
  not, ◌&&◌, ◌||◌, ltb, leb, ◌==◌, if◌then◌else◌, arith,
}
use phatio.Scheduler.{start_flash}
use phatio.Prelude.Bytes.{all_below, all_below_sound}

abbrev pub end_flash : ℕ
end_flash = 0x7000

abbrev pub spm_pagesize : ℕ
spm_pagesize = 128

-- `stopped` is whether `lio_stop` is called
pub record Flash : Type 0 where
  pub bytes : ℕ → ℕ
  pub current : ℕ
  pub stopped : Bool

-- the page at `address` is overwritten by that at `from`
abbrev pub write_to_flash : (ℕ → ℕ) → ℕ → ℕ → (ℕ → ℕ) → ℕ → ℕ
write_to_flash memory address from bytes a =
    if leb address a && ltb a (address + spm_pagesize)
    then memory (from + (a - address))
    else bytes a

-- whether the loop over `b` finds no byte that differs
unfoldable pub same_page : (ℕ → ℕ) → ℕ → ℕ → ℕ → Flash → Bool
same_page memory start i size f =
    all_below spm_pagesize
      (λ b. not (ltb (i + b) size) || (memory (start + i + b) == f.bytes (f.current + b)))

-- one round of the loop
unfoldable pub store_page : (ℕ → ℕ) → ℕ → ℕ → ℕ → Flash → Flash
unfolding same_page
store_page memory start i size f = record f {
  bytes =
      if same_page memory start i size f
      then f.bytes
      else write_to_flash memory f.current (start + i) f.bytes;
  current = f.current + spm_pagesize;
}

-- the loop from `i` on, for at most so many rounds
unfoldable pub store_pages : ℕ → (ℕ → ℕ) → ℕ → ℕ → ℕ → Flash → Flash
unfolding store_page
store_pages zero memory start i size f = f
store_pages (suc rounds) memory start i size f =
    let stored =
      store_pages rounds memory start (i + spm_pagesize) size (store_page memory start i size f) in
    if ltb i size && ltb f.current end_flash then stored else f

-- `if (current >= END_FLASH)`, with the `lio_stop` that goes back to the start of flash
abbrev pub out_of_space : Flash → Flash
out_of_space f =
    if leb end_flash f.current then record f { current = start_flash; stopped = true } else f

-- There are 16 pages.
unfoldable pub store_expression : (ℕ → ℕ) → ℕ → ℕ → Flash → ℕ × Flash
unfolding store_pages
store_expression memory expr size f =
    let f' = store_pages 16 memory expr 0 size f in
    if leb start_flash expr then (expr, f) else (f.current, out_of_space f')

-- `n` bytes at `a` are those at `start`.
abbrev pub Holds : (ℕ → ℕ) → ℕ → ℕ → (ℕ → ℕ) → ℕ → Type 0
Holds bytes a n memory start = (k : ℕ) → k < n → bytes (a + k) ≡ memory (start + k)

equal_or : (a b c d : ℕ) → (not (ltb a b) || (c == d)) ≡ true → a < b → c ≡ d
equal_or a b c d h l = ground arith

then_bytes : (b : Bool) (f g : Flash) (a : ℕ) → b ≡ true → (if b then f else g).bytes a ≡ f.bytes a
then_bytes true f g a h = refl
then_bytes false f g a h = absurd (ground arith)

page_cases : (k : ℕ) → (k < spm_pagesize) ⊎ (spm_pagesize ≤ k)
page_cases k = ground arith

if_bytes :
    (b : Bool) (f g : Flash) (a : ℕ)
    → f.bytes a ≡ g.bytes a
    → (if b then f else g).bytes a ≡ g.bytes a
if_bytes true f g a h = h
if_bytes false f g a h = refl

module _ (memory : ℕ → ℕ) (start size : ℕ) where
  store_page-current :
      (i : ℕ) (f : Flash) → (store_page memory start i size f).current ≡ f.current + spm_pagesize
  unfolding store_page
  store_page-current i f = refl

  same_page-lem :
      (i k : ℕ) (f : Flash)
      → same_page memory start i size f ≡ true
      → k < spm_pagesize
      → i + k < size
      → f.bytes (f.current + k) ≡ memory (start + (i + k))
  unfolding same_page
  same_page-lem i k f e hk hs =
      let h =
        all_below_sound spm_pagesize
          (λ b. not (ltb (i + b) size) || (memory (start + i + b) == f.bytes (f.current + b))) k e
          hk in
      let q = equal_or (i + k) size (memory (start + i + k)) (f.bytes (f.current + k)) h hs in
      let w : start + i + k ≡ start + (i + k) = omega arith in sym q ∙ ap memory w

  -- the page, as it is or written
  page_bytes :
      (b : Bool) (i k : ℕ) (f : Flash)
      → (b ≡ true → f.bytes (f.current + k) ≡ memory (start + (i + k)))
      → k < spm_pagesize
      → (if b then f.bytes else write_to_flash memory f.current (start + i) f.bytes) (f.current + k)
        ≡ memory (start + (i + k))
  page_bytes true i k f h hk = h refl
  page_bytes false i k f h hk =
      let w : start + i + (f.current + k - f.current) ≡ start + (i + k) = omega arith in
      ground (arith, ap memory w)

  page_before :
      (b : Bool) (i a : ℕ) (f : Flash)
      → a < f.current
      → (if b then f.bytes else write_to_flash memory f.current (start + i) f.bytes) a ≡ f.bytes a
  page_before true i a f h = refl
  page_before false i a f h = ground arith

  store_page-bytes :
      (i k : ℕ) (f : Flash)
      → k < spm_pagesize
      → i + k < size
      → (store_page memory start i size f).bytes (f.current + k) ≡ memory (start + (i + k))
  unfolding store_page
  store_page-bytes i k f hk hs =
      page_bytes (same_page memory start i size f) i k f (λ e. same_page-lem i k f e hk hs) hk

  store_page-before :
      (i a : ℕ) (f : Flash) → a < f.current → (store_page memory start i size f).bytes a ≡ f.bytes a
  unfolding store_page
  store_page-before i a f h = page_before (same_page memory start i size f) i a f h

  -- The loop writes nothing below its first page, and the bytes from `i` on, if there is space for them.
  store_pages-before :
      (rounds i a : ℕ) (f : Flash)
      → a < f.current
      → (store_pages rounds memory start i size f).bytes a ≡ f.bytes a
  unfolding store_pages
  store_pages-before zero i a f h = refl
  store_pages-before (suc rounds) i a f h =
      let f' = store_page memory start i size f in
      if_bytes (ltb i size && ltb f.current end_flash) _ f a (
        store_pages-before rounds (i + spm_pagesize) a f' (omega (arith, store_page-current i f))
        ∙ store_page-before i a f h)

  store_pages-bytes :
      (rounds i k : ℕ) (f : Flash)
      → i + k < size
      → size ≤ i + spm_pagesize * rounds
      → f.current + size ≤ i + end_flash
      → (store_pages rounds memory start i size f).bytes (f.current + k) ≡ memory (start + (i + k))
  unfolding store_pages
  store_pages-bytes zero i k f hk hr hc = absurd (omega arith)
  store_pages-bytes (suc rounds) i k f hk hr hc =
      let f' = store_page memory start i size f in
      let c = store_page-current i f in
      then_bytes (ltb i size && ltb f.current end_flash)
        (store_pages rounds memory start (i + spm_pagesize) size f') f (f.current + k)
        (ground arith)
      ∙ elim (page_cases k) [
        | inl l ↦
            store_pages-before rounds (i + spm_pagesize) (f.current + k) f' (omega (arith, c))
            ∙ store_page-bytes i k f l hk
        | inr g ↦
            let a : f.current + k ≡ f'.current + (k - spm_pagesize) = omega (arith, c) in
            let b : (i + spm_pagesize) + (k - spm_pagesize) ≡ i + k = omega arith in
            let ih =
              store_pages-bytes rounds (i + spm_pagesize) (k - spm_pagesize) f' (omega arith)
                (omega arith) (omega (arith, c)) in
            ap (store_pages rounds memory start (i + spm_pagesize) size f').bytes a
            ∙ (ih ∙ ap (λ n. memory (start + n)) b)
      ]

out_of_space-bytes : (f : Flash) (a : ℕ) → (out_of_space f).bytes a ≡ f.bytes a
out_of_space-bytes f a =
    if_bytes (leb end_flash f.current) (record f { current = start_flash; stopped = true }) f a refl

plus_zero : (e k : ℕ) → e + (0 + k) ≡ e + k
plus_zero e k = omega arith

outside : (expr : ℕ) → expr < start_flash → leb start_flash expr ≡ false
outside expr h = ground arith

if_false : {A : Type 0} (b : Bool) (x y : A) → b ≡ false → (if b then x else y) ≡ y
if_false false x y h = refl
if_false true x y h = absurd (ground arith)

stored_as :
    (memory : ℕ → ℕ) (expr size : ℕ) (f : Flash)
    → expr < start_flash
    → store_expression memory expr size f
      ≡ (f.current, out_of_space (store_pages 16 memory expr 0 size f))
unfolding store_expression
stored_as memory expr size f h = if_false (leb start_flash expr) _ _ (outside expr h)

-- An expression outside of flash for which there is space is stored from the current page on, byte for
-- byte, whatever the pages held before, and everything below it stays as it was.
pub store_expression-Holds :
    (memory : ℕ → ℕ) (expr size : ℕ) (f : Flash)
    → expr < start_flash
    → start_flash ≤ f.current
    → f.current + size ≤ end_flash
    → let (address, f') = store_expression memory expr size f in
      (address ≡ f.current)
      × (Holds f'.bytes address size memory expr
          × ((a : ℕ) → a < f.current → f'.bytes a ≡ f.bytes a))
store_expression-Holds memory expr size f he hs hc = rw (stored_as memory expr size f he) (
  refl,
  (
    λ k h.
        out_of_space-bytes (store_pages 16 memory expr 0 size f) (f.current + k)
        ∙ (store_pages-bytes memory expr size 16 0 k f (omega arith) (omega arith) (omega arith)
            ∙ ap memory (plus_zero expr k)),
    λ a h.
        out_of_space-bytes (store_pages 16 memory expr 0 size f) a
        ∙ store_pages-before memory expr size 16 0 a f h,
  ),
)
