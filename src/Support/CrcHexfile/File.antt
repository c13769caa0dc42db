-- ===== src/Support/CrcHexfile/File.antt =====
-- What support/crc_hexfile.c prints for a file of records.
use phatio.Prelude.{
  true, false, ℕ, zero, suc, ◌+◌, ◌<◌, ◌≤◌, ◌≡◌, refl, sym, ap, ◌∙◌, List, [], ◌∷◌, ◌++◌, length,
  get_or, drop, ltb, ◌==◌, arith,
}
use mathlib.Core.List.{append-nil}
use phatio.Boot.Hex.{
  Reads, print_byte, print_bytes, length-print_bytes, next_byte-print_byte, next_word-print_byte,
}
use phatio.Boot.Load.{Line, IsLine, AreLines, IsGap, AllBytes, print_line, file, bytes_of}
use phatio.Boot.Written.{crc_of}
use phatio.Boot.Chain.{consume}
use phatio.Boot.Check.{BootFile, IsBootFile, text_of, data_of}
use phatio.Support.CrcHexfile.{
  crc16_update, from_buffer, crc_data, crc_record, crc_from, print_word, main,
}

module _ (buffer : List ℕ) where
  abbrev Left : ℕ → List ℕ → Type 0
  Left offset text = (drop offset buffer ++ [] ≡ text) × (offset + length text ≡ length buffer)

  from_buffer-Reads : Reads (from_buffer buffer) Left
  from_buffer-Reads = record {
    step = λ offset c cs h.
        let (p, q) = consume buffer offset [] c cs (omega (arith, h.1)) h.0 in
        (offset + 1, (ap (λ b. (b, offset + 1)) p, (q, omega (arith, h.1))));
    going = λ offset cs h. refl;
  }

  crc_data-print_bytes :
      (bs cs : List ℕ) (crc offset : ℕ)
      → AllBytes bs
      → Left offset (print_bytes bs ++ cs)
      → (o : ℕ) × ((crc_data buffer (length bs) crc offset ≡ (crc_of crc16_update crc bs, o))
          × Left o cs)
  unfolding crc_data
  crc_data-print_bytes [] cs crc offset a h = (offset, (refl, h))
  crc_data-print_bytes (b ∷ bs) cs crc offset a h =
      let (s₁, (q, h₁)) =
        next_byte-print_byte (from_buffer buffer) crc16_update Left from_buffer-Reads b
          (print_bytes bs ++ cs) offset a.0 h in
      let (r, (e, h₂)) = crc_data-print_bytes bs cs (crc16_update crc b) s₁ a.1 h₁ in
      (r, (ap (λ x. crc_data buffer (length bs) (crc16_update crc x.0) x.1) q ∙ e, h₂))

  crc_record-print_line :
      (type : ℕ) (l : Line) (cs : List ℕ) (crc offset : ℕ)
      → type < 256
      → IsLine l
      → Left offset (
          print_byte (length l.bytes)
          ++ (print_byte l.address_high
              ++ (print_byte l.address_low
                  ++ (print_byte type ++ (print_bytes l.bytes ++ (print_byte l.checksum ++ cs))))))
      → (o : ℕ) × ((crc_record buffer crc offset ≡ (crc_of crc16_update crc l.bytes, o))
          × Left o cs)
  unfolding crc_record
  crc_record-print_line type l cs crc s ht v h =
      let source = from_buffer buffer in
      let (s₁, (q₁, h₁)) =
        next_byte-print_byte source crc16_update Left from_buffer-Reads (length l.bytes) _ s v.few
          h in
      let (s₂, (q₂, h₂)) =
        next_word-print_byte source crc16_update Left from_buffer-Reads l.address_high l.address_low
          _ s₁ v.high v.low h₁ in
      let (s₃, (q₃, h₃)) =
        next_byte-print_byte source crc16_update Left from_buffer-Reads type _ s₂ ht h₂ in
      let (s₄, (q₄, h₄)) = crc_data-print_bytes l.bytes _ crc s₃ v.data_bytes h₃ in
      let (s₅, (q₅, h₅)) =
        next_byte-print_byte source crc16_update Left from_buffer-Reads l.checksum cs s₄ v.sum h₄ in
      (s₅, (rw q₁ (rw q₂ (rw q₃ (rw q₄ (rw q₅ refl)))), h₅))

  -- The rest `text` is read, with the checksum `final`.
  abbrev Finishes : List ℕ → ℕ → ℕ → Type 0
  Finishes text crc final =
      (rounds offset : ℕ)
      → Left offset text
      → length text ≤ rounds
      → crc_from buffer rounds (length buffer) crc offset ≡ final

  end_Finishes : (crc : ℕ) → Finishes [] crc crc
  unfolding crc_from
  end_Finishes crc zero offset h l = refl
  end_Finishes crc (suc rounds) offset h l =
      let t : ltb offset (length buffer) ≡ false = ground (arith, h.1) in rw t refl

  gap_Finishes :
      (gap cs : List ℕ) (crc final : ℕ)
      → IsGap gap
      → Finishes cs crc final
      → Finishes (gap ++ cs) crc final
  unfolding crc_from
  gap_Finishes [] cs crc final g k rounds offset h l = k rounds offset h l
  gap_Finishes (c ∷ gap) cs crc final g k zero offset h l = absurd (omega arith)
  gap_Finishes (c ∷ gap) cs crc final g k (suc rounds) offset h l =
      let (p, q) = consume buffer offset [] c (gap ++ cs) (omega (arith, h.1)) h.0 in
      let t : ltb offset (length buffer) ≡ true = ground (arith, h.1) in
      let u : (get_or buffer offset 0 == 58) ≡ false = ground (arith, p, g.0) in
      rw (t, u)
        (gap_Finishes gap cs crc final g.1 k rounds (offset + 1) (q, omega (arith, h.1))
          (omega arith))

  line_Finishes :
      (type : ℕ) (l : Line) (cs : List ℕ) (crc final : ℕ)
      → type < 256
      → IsLine l
      → Finishes cs (crc_of crc16_update crc l.bytes) final
      → Finishes (print_line type l cs) crc final
  unfolding crc_from
  line_Finishes type l cs crc final ht v k zero offset h n = absurd (omega arith)
  line_Finishes type l cs crc final ht v k (suc rounds) offset h n =
      let (p, q) = consume buffer offset [] 58 _ (omega (arith, h.1)) h.0 in
      let t : ltb offset (length buffer) ≡ true = ground (arith, h.1) in
      let u : (get_or buffer offset 0 == 58) ≡ true = ground (arith, p) in
      let (o, (e, m)) =
        crc_record-print_line type l (l.gap ++ cs) crc (offset + 1) ht v (q, omega (arith, h.1)) in
      let w = length-print_bytes l.bytes (print_byte l.checksum ++ (l.gap ++ cs)) in
      rw (t, u, e)
        (gap_Finishes l.gap cs (crc_of crc16_update crc l.bytes) final v.between k rounds o m
          (omega (arith, w)))

  crc_of-append :
      (bs cs : List ℕ) (crc : ℕ)
      → crc_of crc16_update (crc_of crc16_update crc bs) cs ≡ crc_of crc16_update crc (bs ++ cs)
  crc_of-append [] cs crc = refl
  crc_of-append (b ∷ bs) cs crc = crc_of-append bs cs (crc16_update crc b)

  file-Finishes :
      (ls : List Line) (end_ : Line) (crc : ℕ)
      → AreLines ls
      → IsLine end_
      → end_.bytes ≡ []
      → Finishes (file ls end_) crc (crc_of crc16_update crc (bytes_of ls))
  file-Finishes [] end_ crc v e z =
      line_Finishes 1 end_ [] crc crc (omega arith) e (rw z (end_Finishes crc))
  file-Finishes (l ∷ ls) end_ crc v e z = line_Finishes 0 l (file ls end_) crc _ (omega arith) v.0 (
      rw (sym (crc_of-append l.bytes (bytes_of ls) crc))
        (file-Finishes ls end_ (crc_of crc16_update crc l.bytes) v.1 e z))

-- For a file of whole records the tool prints the checksum of the bytes in it, whatever stands between
-- the records, as four hexadecimal digits.
pub main-text_of :
    (f : BootFile)
    → IsBootFile f
    → main (text_of f) ≡ print_word (crc_of crc16_update 0 (data_of f))
unfolding main
main-text_of f v =
    let text = text_of f in
    let h : (text ++ [] ≡ text) × (0 + length text ≡ length text) =
      (append-nil text, omega arith) in
    let k : (rounds offset : ℕ)
        → Left text offset (file f.lines f.last)
        → length (file f.lines f.last) ≤ rounds
        → crc_from text rounds (length text) 0 offset ≡ crc_of crc16_update 0 (data_of f) =
      file-Finishes text f.lines f.last 0 v.records v.final v.no_bytes in
    ap print_word (
      gap_Finishes text f.gap (file f.lines f.last) 0 (crc_of crc16_update 0 (data_of f)) v.before k
        (length text) 0 h (omega arith))
