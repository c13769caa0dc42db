-- ===== src/Boot/Keeps.antt =====
-- What `load_bootfile` of src/bootloader_sdihex.c leaves as it is where it reads.
use phatio.Prelude.{
  ◌⊎◌, inl, inr, none, some, ℕ, zero, suc, ◌+◌, ◌*◌, ◌%◌, ◌^◌, ◌≡◌, refl, ap, ◌∙◌, Bool, not, ◌&&◌,
  Option, List, ltb, ◌==◌, Bool-cases,
}
use phatio.Fat.{Disk, cluster_to_block, read_block, get_next_cluster}
use phatio.Fat.Walk.{next-disk}
use phatio.Boot.{
  Source, Program, next_byte, next_word, store_byte, read_data, read_record, load_from,
}
use phatio.Boot.Card.{Reader, next_char}

module _ {S : Type 0} (source : Source S) (update : ℕ → ℕ → ℕ) (Kept : S → Type 0)
    (kept : (s : S) → Kept s → Kept (source.next_char s).1) where
  next_byte-Kept : (s : S) → Kept s → Kept (next_byte source update s).1
  unfolding next_byte
  next_byte-Kept s h = kept (source.next_char s).1 (kept s h)

  next_word-Kept : (s : S) → Kept s → Kept (next_word source update s).1
  unfolding next_word
  next_word-Kept s h = next_byte-Kept (next_byte source update s).1 (next_byte-Kept s h)

  read_data-Kept :
      (n : ℕ) (program : Bool) (p : Program) (s : S)
      → Kept s
      → Kept (read_data source update n program p s).1
  unfolding read_data
  read_data-Kept zero program p s h = h
  read_data-Kept (suc n) program p s h =
      read_data-Kept n program (store_byte source update program (next_byte source update s).0 p)
        (next_byte source update s).1 (next_byte-Kept s h)

  read_record-Kept :
      (program : Bool) (p : Program) (s : S)
      → Kept s
      → Kept (read_record source update program p s).1.1
  unfolding read_record
  read_record-Kept program p s h =
      next_byte-Kept _
        (read_data-Kept _ program p _ (next_byte-Kept _ (next_word-Kept _ (next_byte-Kept s h))))

  pub load_from-Kept :
      (rounds byte size : ℕ) (program : Bool) (p : Program) (s : S)
      → Kept s
      → Kept (load_from source update rounds byte size program p s).1
  unfolding load_from
  load_from-Kept zero byte size program p s h = h
  load_from-Kept (suc rounds) byte size program p s h =
      let on = kept s h in
      let r = read_record source update program p (source.next_char s).1 in
      let skipped =
        load_from-Kept rounds ((byte + 1) % 2 ^ 32) size program p (source.next_char s).1 on in
      let found =
        load_from-Kept rounds ((byte + (r.0 + 5) * 2 + 1) % 2 ^ 32) size program r.1.0 r.1.1
          (read_record-Kept program p (source.next_char s).1 on) in
      elim (Bool-cases (ltb byte size && not (source.at_end s))) [
        | inl t ↦ elim (Bool-cases ((source.next_char s).0 == 58)) [
          | inl c ↦ rw (t, c) found
          | inr c ↦ rw (t, c) skipped
        ]
        | inr t ↦ rw t h
      ]

some_cases : (o : Option (List ℕ)) → ((b : List ℕ) × (o ≡ some b)) ⊎ (o ≡ none)
some_cases none = inr refl
some_cases (some b) = inl (b, refl)

module _ (card : ℕ → Option (List ℕ)) (sd : Disk) where
  -- of the card, only the buffer changes
  abbrev pub OnlyBuffer : Reader → Type 0
  OnlyBuffer r = r.disk ≡ record sd { buf = r.disk.buf }

  pub get_next_cluster-OnlyBuffer :
      (d : Disk) (c : ℕ)
      → d ≡ record sd { buf = d.buf }
      → (get_next_cluster card d c).1 ≡ record sd { buf = (get_next_cluster card d c).1.buf }
  get_next_cluster-OnlyBuffer d c h =
      let y = (get_next_cluster card d c).1.buf in
      let g : Disk → Disk = λ e. record e { buf = y } in next-disk card d c ∙ ap g h

  pub read_block-OnlyBuffer :
      (d : Disk) (n : ℕ)
      → d ≡ record sd { buf = d.buf }
      → (read_block card n d).1 ≡ record sd { buf = (read_block card n d).1.buf }
  unfolding read_block
  read_block-OnlyBuffer d n h = elim (some_cases (card n)) [
    | inl (b, e) ↦ let g : Disk → Disk = λ x. record x { buf = b } in rw (read_block, e) (ap g h)
    | inr e ↦ rw (read_block, e) h
  ]

  pub next_char-OnlyBuffer : (r : Reader) → OnlyBuffer r → OnlyBuffer (next_char card r).1
  unfolding next_char
  next_char-OnlyBuffer r h =
      let (next, d) = get_next_cluster card r.disk r.cluster in
      let on = get_next_cluster-OnlyBuffer r.disk r.cluster h in
      elim (Bool-cases (r.offset == 512)) [
        | inl t ↦ elim (Bool-cases (next == 0)) [
          | inl z ↦ rw (t, z) on
          | inr z ↦ rw (t, z) (read_block-OnlyBuffer d (cluster_to_block d next) on)
        ]
        | inr t ↦ rw t h
      ]
