-- ===== src/Boot/Load.antt =====
-- `load_bootfile` of src/bootloader_sdihex.c on a file of records: the bytes that it stores.
use phatio.Prelude.{
  ℕ, zero, suc, ◌+◌, ◌*◌, ◌%◌, ◌^◌, ◌<◌, ◌≤◌, ◌≡◌, ◌≢◌, refl, sym, ap, ◌∙◌, Bool, false, List, [],
  ◌∷◌, ◌++◌, length, arith,
}
use phatio.Boot.{Source, Program, store_byte, read_data, last_page, read_record, load_from}
use phatio.Boot.Hex.{
  Reads, print_byte, print_bytes, length-print_bytes, next_byte-print_byte, next_word-print_byte,
}

-- A record of a file: its address, its bytes, its checksum, and what stands between it and the next one.
pub record Line : Type 0 where
  pub address_high : ℕ
  pub address_low : ℕ
  pub bytes : List ℕ
  pub checksum : ℕ
  pub gap : List ℕ

abbrev pub print_line : ℕ → Line → List ℕ → List ℕ
print_line type l cs =
    58
    ∷ (print_byte (length l.bytes)
        ++ (print_byte l.address_high
            ++ (print_byte l.address_low
                ++ (print_byte type
                    ++ (print_bytes l.bytes ++ (print_byte l.checksum ++ (l.gap ++ cs)))))))

-- A file ends with a record of type 1 without bytes.
abbrev pub file : List Line → Line → List ℕ
file [] end_ = print_line 1 end_ []
file (l ∷ ls) end_ = print_line 0 l (file ls end_)

abbrev pub bytes_of : List Line → List ℕ
bytes_of [] = []
bytes_of (l ∷ ls) = l.bytes ++ bytes_of ls

abbrev pub AllBytes : List ℕ → Type 0
AllBytes [] = Unit
AllBytes (b ∷ bs) = (b < 256) × AllBytes bs

-- no start of a record
abbrev pub IsGap : List ℕ → Type 0
IsGap [] = Unit
IsGap (c ∷ cs) = (c ≢ 58) × IsGap cs

pub record IsLine (l : Line) : Type 0 where
  pub high : l.address_high < 256
  pub low : l.address_low < 256
  pub few : length l.bytes < 256
  pub data_bytes : AllBytes l.bytes
  pub sum : l.checksum < 256
  pub between : IsGap l.gap

abbrev pub AreLines : List Line → Type 0
AreLines [] = Unit
AreLines (l ∷ ls) = IsLine l × AreLines ls

module _ {S : Type 0} (source : Source S) (update : ℕ → ℕ → ℕ) where
  abbrev pub store_all : Bool → List ℕ → Program → Program
  store_all program [] p = p
  store_all program (b ∷ bs) p = store_all program bs (store_byte source update program b p)

  store_all-append :
      (program : Bool) (bs cs : List ℕ) (p : Program)
      → store_all program cs (store_all program bs p) ≡ store_all program (bs ++ cs) p
  store_all-append program [] cs p = refl
  store_all-append program (b ∷ bs) cs p =
      store_all-append program bs cs (store_byte source update program b p)

module _ {S : Type 0} (source : Source S) (update : ℕ → ℕ → ℕ) (Holds : S → List ℕ → Type 0)
    (reads : Reads source Holds) where
  read_data-print_bytes :
      (bs cs : List ℕ) (program : Bool) (p : Program) (s : S)
      → AllBytes bs
      → Holds s (print_bytes bs ++ cs)
      → (r : S) × ((read_data source update (length bs) program p s
            ≡ (store_all source update program bs p, r))
          × Holds r cs)
  unfolding read_data
  read_data-print_bytes [] cs program p s a h = (s, (refl, h))
  read_data-print_bytes (b ∷ bs) cs program p s a h =
      let (s₁, (q, h₁)) =
        next_byte-print_byte source update Holds reads b (print_bytes bs ++ cs) s a.0 h in
      let (r, (e, h₂)) =
        read_data-print_bytes bs cs program (store_byte source update program b p) s₁ a.1 h₁ in
      (
        r,
        (
          ap
                (λ x.
                  read_data source update (length bs) program
                    (store_byte source update program x.0 p) x.1)
                q
              ∙ e,
          h₂,
        ),
      )

  -- what follows the start code
  read_record-print_line :
      (type : ℕ) (l : Line) (cs : List ℕ) (program : Bool) (p : Program) (s : S)
      → type < 256
      → IsLine l
      → Holds s (
          print_byte (length l.bytes)
          ++ (print_byte l.address_high
              ++ (print_byte l.address_low
                  ++ (print_byte type ++ (print_bytes l.bytes ++ (print_byte l.checksum ++ cs))))))
      → (r : S) × ((read_record source update program p s ≡ (
        length l.bytes,
        (last_page source update program type (store_all source update program l.bytes p), r),
      ))
          × Holds r cs)
  unfolding read_record
  read_record-print_line type l cs program p s ht v h =
      let (s₁, (q₁, h₁)) =
        next_byte-print_byte source update Holds reads (length l.bytes) _ s v.few h in
      let (s₂, (q₂, h₂)) =
        next_word-print_byte source update Holds reads l.address_high l.address_low _ s₁ v.high
          v.low h₁ in
      let (s₃, (q₃, h₃)) = next_byte-print_byte source update Holds reads type _ s₂ ht h₂ in
      let (s₄, (q₄, h₄)) = read_data-print_bytes l.bytes _ program p s₃ v.data_bytes h₃ in
      let (s₅, (q₅, h₅)) =
        next_byte-print_byte source update Holds reads l.checksum cs s₄ v.sum h₄ in
      (s₅, (rw q₁ (rw q₂ (rw q₃ (rw q₄ (rw q₅ refl)))), h₅))

  skip_step :
      (rounds byte size : ℕ) (program : Bool) (p : Program) (s s₁ : S) (c : ℕ)
      → source.next_char s ≡ (c, s₁)
      → source.at_end s ≡ false
      → c ≢ 58
      → byte < size
      → size < 2 ^ 32
      → load_from source update (suc rounds) byte size program p s
        ≡ load_from source update rounds (byte + 1) size program p s₁
  unfolding load_from
  skip_step rounds byte size program p s s₁ c q e nc lt small =
      let m : (byte + 1) % 2 ^ 32 ≡ byte + 1 = omega arith in
      rw q (rw e (ground (arith, ap (λ b. load_from source update rounds b size program p s₁) m)))

  record_step :
      (rounds byte size n : ℕ) (program : Bool) (p p' : Program) (s s₁ r : S)
      → source.next_char s ≡ (58, s₁)
      → source.at_end s ≡ false
      → read_record source update program p s₁ ≡ (n, (p', r))
      → byte + (n + 5) * 2 + 1 ≤ size
      → size < 2 ^ 32
      → load_from source update (suc rounds) byte size program p s
        ≡ load_from source update rounds (byte + (n + 5) * 2 + 1) size program p' r
  unfolding load_from
  record_step rounds byte size n program p p' s s₁ r q e t le small =
      let b = byte + (n + 5) * 2 + 1 in
      let m : b % 2 ^ 32 ≡ b = omega arith in
      rw q (
        rw e
          (rw t (ground (arith, ap (λ b. load_from source update rounds b size program p' r) m))))

  -- The rest `text` of a file of `size` characters is read, with the program `final` at its end.
  abbrev Finishes : ℕ → Bool → List ℕ → Program → Program → Type 0
  Finishes size program text p final =
      (rounds byte : ℕ) (s : S)
      → Holds s text
      → length text ≤ rounds
      → byte + length text ≡ size
      → (load_from source update rounds byte size program p s).0 ≡ final

  module _ (size : ℕ) (small : size < 2 ^ 32) (program : Bool) where
    end_Finishes : (p : Program) → Finishes size program [] p p
    unfolding load_from
    end_Finishes p zero byte s h l e = refl
    end_Finishes p (suc rounds) byte s h l e = ground arith

    gap_Finishes :
        (gap cs : List ℕ) (p final : Program)
        → IsGap gap
        → Finishes size program cs p final
        → Finishes size program (gap ++ cs) p final
    gap_Finishes [] cs p final g k rounds byte s h l e = k rounds byte s h l e
    gap_Finishes (c ∷ gap) cs p final g k zero byte s h l e = absurd (omega arith)
    gap_Finishes (c ∷ gap) cs p final g k (suc rounds) byte s h l e =
        let (s₁, (q, h₁)) = reads.step s c (gap ++ cs) h in
        ap (λ r. r.0)
          (skip_step rounds byte size program p s s₁ c q (reads.going s _ h) g.0 (omega arith)
            small)
        ∙ gap_Finishes gap cs p final g.1 k rounds (byte + 1) s₁ h₁ (omega arith) (omega arith)

    line_Finishes :
        (type : ℕ) (l : Line) (cs : List ℕ) (p final : Program)
        → type < 256
        → IsLine l
        → Finishes size program cs
            (last_page source update program type (store_all source update program l.bytes p))
            final
        → Finishes size program (print_line type l cs) p final
    line_Finishes type l cs p final ht v k zero byte s h n e = absurd (omega arith)
    line_Finishes type l cs p final ht v k (suc rounds) byte s h n e =
        let (s₁, (q, h₁)) = reads.step s 58 _ h in
        let (r, (t, h₂)) = read_record-print_line type l (l.gap ++ cs) program p s₁ ht v h₁ in
        let w = length-print_bytes l.bytes (print_byte l.checksum ++ (l.gap ++ cs)) in
        ap (λ r. r.0)
          (record_step rounds byte size (length l.bytes) program p _ s s₁ r q (reads.going s _ h) t
            (omega (arith, w)) small)
        ∙ gap_Finishes l.gap cs _ final v.between k rounds (byte + (length l.bytes + 5) * 2 + 1) r
            h₂ (omega (arith, w)) (omega (arith, w))

    file-Finishes :
        (ls : List Line) (end_ : Line) (p : Program)
        → AreLines ls
        → IsLine end_
        → end_.bytes ≡ []
        → Finishes size program
            (file ls end_)
            p
            (last_page source update program 1 (store_all source update program (bytes_of ls) p))
    unfolding last_page
    file-Finishes [] end_ p v e z =
        line_Finishes 1 end_ [] p _ (omega arith) e
          (rw z (end_Finishes (last_page source update program 1 p)))
    file-Finishes (l ∷ ls) end_ p v e z = line_Finishes 0 l (file ls end_) p _ (omega arith) v.0 (
        rw (sym (store_all-append source update program l.bytes (bytes_of ls) p))
          (file-Finishes ls end_ (store_all source update program l.bytes p) v.1 e z))

  -- the whole of a file, with as many rounds as it has characters
  pub load_from-file :
      (gap : List ℕ) (ls : List Line) (end_ : Line) (program : Bool) (p : Program) (s : S)
      → IsGap gap
      → AreLines ls
      → IsLine end_
      → end_.bytes ≡ []
      → length (gap ++ file ls end_) < 2 ^ 32
      → Holds s (gap ++ file ls end_)
      → let size = length (gap ++ file ls end_) in
        (load_from source update size 0 size program p s).0
        ≡ last_page source update program 1 (store_all source update program (bytes_of ls) p)
  load_from-file gap ls end_ program p s g v e z small h =
      let size = length (gap ++ file ls end_) in
      gap_Finishes size small program gap (file ls end_) p _ g
        (file-Finishes size small program ls end_ p v e z) size 0 s h (omega arith) (omega arith)
