-- ===== src/Boot/Chain.antt =====
-- `next_char` of src/bootloader_sdihex.c reads a file along its chain of clusters.
use phatio.Prelude.{
  ℕ, zero, suc, ◌+◌, ◌<◌, ◌≤◌, ◌≡◌, ◌≢◌, ◌⊎◌, inl, inr, refl, sym, ap, ◌∙◌, true, false, Option,
  some, List, [], ◌∷◌, ◌++◌, length, get_or, drop, arith, ◌==◌,
}
use phatio.Fat.{Disk, byte_at, cluster_to_block, read_block, get_next_cluster}
use phatio.Fat.Walk.{Directory, block, block-buf, next-disk, read-some}
use phatio.Boot.Hex.{Reads}
use phatio.Boot.Card.{Reader, next_char, from_card}

abbrev pub concat : List (List ℕ) → List ℕ
concat [] = []
concat (b ∷ bs) = b ++ concat bs

abbrev pub AreBlocks : List (List ℕ) → Type 0
AreBlocks [] = Unit
AreBlocks (b ∷ bs) = (length b ≡ 512) × AreBlocks bs

drop-get_or : (b : List ℕ) (i : ℕ) → i < length b → drop i b ≡ get_or b i 0 ∷ drop (i + 1) b
drop-get_or [] i h = absurd (omega arith)
drop-get_or (c ∷ b) zero h = refl
drop-get_or (c ∷ b) (suc i) h =
    drop-get_or b i (omega arith)
    ∙ (let e : suc (i + 1) ≡ suc i + 1 = omega arith in ap (λ n. get_or b i 0 ∷ drop n (c ∷ b)) e)

drop_all : (b : List ℕ) (i : ℕ) → length b ≤ i → drop i b ≡ []
drop_all [] zero h = refl
drop_all [] (suc i) h = refl
drop_all (c ∷ b) zero h = absurd (omega arith)
drop_all (c ∷ b) (suc i) h = drop_all b i (omega arith)

-- the byte at `i` and what follows it
pub consume :
    (b : List ℕ) (i : ℕ) (more : List ℕ) (c : ℕ) (text : List ℕ)
    → i < length b
    → drop i b ++ more ≡ c ∷ text
    → (get_or b i 0 ≡ c) × (drop (i + 1) b ++ more ≡ text)
consume b i more c text h e =
    let f : get_or b i 0 ∷ (drop (i + 1) b ++ more) ≡ c ∷ text =
      sym (ap (λ l. l ++ more) (drop-get_or b i h)) ∙ e in
    (ap (λ l. get_or l 0 0) f, ap (drop 1) f)

module _ (card : ℕ → Option (List ℕ)) (sd : Disk) where
  -- The file goes on with `text` where the reader stands: on a block of the chain, and behind it.
  pub record Holds (r : Reader) (text : List ℕ) : Type 0 where
    pub here : List ℕ
    pub later : List (List ℕ)
    pub rest : List ℕ
    pub chain : Directory card sd r.cluster (here ∷ later)
    pub loaded : r.disk ≡ record sd { buf = here }
    pub whole : length here ≡ 512
    pub blocks : AreBlocks later
    pub inside : r.offset ≤ 512
    pub follows : drop r.offset here ++ concat later ≡ text ++ rest

  chain-ne-zero : (c : ℕ) (b : List ℕ) (bs : List (List ℕ)) → Directory card sd c (b ∷ bs) → c ≢ 0
  chain-ne-zero c b bs (block n p q d) = n

  reads_next :
      (c next : ℕ) (b b' : List ℕ)
      → card (cluster_to_block sd next) ≡ some b'
      → (read_block card
          (cluster_to_block (get_next_cluster card (record sd { buf = b }) c).1 next)
          (get_next_cluster card (record sd { buf = b }) c).1).1
        ≡ record sd { buf = b' }
  reads_next c next b b' p =
      let at = record sd { buf = b } in
      let y : List ℕ = (get_next_cluster card at c).1.buf in
      ap (λ d. (read_block card (cluster_to_block d next) d).1) (next-disk card at c)
      ∙ read-some card (record sd { buf = y }) (cluster_to_block (record sd { buf = y }) next)
          (rw block-buf p)

  -- the step along the chain
  next_block :
      (r : Reader) (b b' : List ℕ) (bs : List (List ℕ))
      → r.disk ≡ record sd { buf = b }
      → Directory card sd r.cluster (b ∷ b' ∷ bs)
      → (next : ℕ) × (next ≢ 0)
        × ((get_next_cluster card r.disk r.cluster).0 ≡ next)
        × ((read_block card
              (cluster_to_block (get_next_cluster card r.disk r.cluster).1 next)
              (get_next_cluster card r.disk r.cluster).1).1
            ≡ record sd { buf = b' })
        × Directory card sd next (b' ∷ bs)
  next_block r b b' bs e (block n p q (block {cluster = next} n' p' q' d)) =
      rw e (next, n', q, reads_next r.cluster next b b' p', block n' p' q' d)

  at_end_cases : (n : ℕ) → n ≤ 512 → (n < 512) ⊎ (n ≡ 512)
  at_end_cases n h = ground arith

  step_inside :
      (r : Reader) (c : ℕ) (cs : List ℕ)
      → (v : Holds r (c ∷ cs)) → r.offset < 512
      → (s : Reader) × ((next_char card r ≡ (c, s)) × Holds s cs)
  unfolding next_char
  step_inside r c cs v l =
      let (p, q) =
        consume v.here r.offset (concat v.later) c (cs ++ v.rest) (omega (arith, v.whole))
          v.follows in
      let t : (r.offset == 512) ≡ false = ground arith in
      let e : byte_at r.disk.buf r.offset ≡ c = ap (λ d. byte_at d.buf r.offset) v.loaded ∙ p in
      (
        record r { offset = r.offset + 1 },
        (
          rw t (rw e refl),
          record {
            here = v.here;
            later = v.later;
            rest = v.rest;
            chain = v.chain;
            loaded = v.loaded;
            whole = v.whole;
            blocks = v.blocks;
            inside = omega arith;
            follows = q;
          },
        ),
      )

  from_next :
      (r : Reader) (c : ℕ) (cs rest b : List ℕ) (bs : List (List ℕ))
      → Directory card sd r.cluster (b ∷ bs)
      → r.disk ≡ record sd { buf = b }
      → AreBlocks bs
      → r.offset ≡ 512
      → concat bs ≡ c ∷ (cs ++ rest)
      → (s : Reader) × ((next_char card r ≡ (c, s)) × Holds s cs)
  unfolding next_char
  from_next r c cs rest b [] d e w o f = absurd (omega (arith, ap length f))
  from_next r c cs rest b (b' ∷ bs) d e w o f =
      let (next, nz, link, loaded, d') = next_block r b b' bs e d in
      let (p, q) = consume b' 0 (concat bs) c (cs ++ rest) (omega (arith, w.0)) f in
      let t : (r.offset == 512) ≡ true = ground arith in
      let z : (next == 0) ≡ false = ground arith in
      let y : byte_at
            (read_block card (cluster_to_block (get_next_cluster card r.disk r.cluster).1 next)
              (get_next_cluster card r.disk r.cluster).1).1.buf
            0
          ≡ c =
        ap (λ d. byte_at d.buf 0) loaded ∙ p in
      (
        record {
          disk =
              (read_block card (cluster_to_block (get_next_cluster card r.disk r.cluster).1 next)
                (get_next_cluster card r.disk r.cluster).1).1;
          offset = 1;
          cluster = next;
        },
        (
          rw t (rw link (rw z (rw y refl))),
          record {
            here = b';
            later = bs;
            rest = rest;
            chain = d';
            loaded = loaded;
            whole = w.0;
            blocks = w.1;
            inside = omega arith;
            follows = q;
          },
        ),
      )

  next_char-step :
      (r : Reader) (c : ℕ) (cs : List ℕ)
      → Holds r (c ∷ cs)
      → (s : Reader) × ((next_char card r ≡ (c, s)) × Holds s cs)
  next_char-step r c cs v = elim (at_end_cases r.offset v.inside) [
    | inl l ↦ step_inside r c cs v l
    | inr e ↦
        let n : drop r.offset v.here ≡ [] = drop_all v.here r.offset (omega (arith, v.whole)) in
        from_next r c cs v.rest v.here v.later v.chain v.loaded v.blocks e
          (sym (ap (λ l. l ++ concat v.later) n) ∙ v.follows)
  ]

  -- A file whose blocks are those of a chain on the card is read character by character.
  pub next_char-Reads : Reads (from_card card) Holds
  next_char-Reads = record {
    step = next_char-step;
    going = λ r cs v.
        let nz = chain-ne-zero r.cluster v.here v.later v.chain in
        let t : (r.cluster == 0) ≡ false = ground arith in t;
  }
