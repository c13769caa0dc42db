-- ===== src/Log/Queue.antt =====
-- The key buffer of src/log.c as a queue of the characters that are still to be read.
use phatio.Prelude.{
  ℕ, zero, suc, ◌+◌, ◌-◌, ◌%◌, ◌≤◌, ◌<◌, ◌≡◌, ◌≢◌, refl, ap, ap₂, ◌∙◌, true, false, some, List, [],
  ◌∷◌, ◌++◌, get_or, set, length, take, take_all, length-set, get_or-set_self, get_or-set_ne, ltb,
  ltb→lt, lt→ltb, ◌==◌, if◌then◌else◌, Bool-cases, arith, inl, inr, ◌⊎◌,
}
use phatio.Log.Keys.{
  KeyLog, buffer_len, store, vsnprintf, remaining, print_loop, key_printf_P, has_next,
  log_consume_as_char,
}

pub record IsValid (k : KeyLog) : Type 0 where
  pub size : length k.buffer ≡ buffer_len
  pub ordered : k.read_position ≤ k.write_position
  pub inside : k.write_position < buffer_len

-- `n` bytes of the buffer from index `i` on
abbrev pub slice : List ℕ → ℕ → ℕ → List ℕ
slice buf i zero = []
slice buf i (suc n) = get_or buf i 0 ∷ slice buf (i + 1) n

abbrev pub pending : KeyLog → List ℕ
pending k = slice k.buffer k.read_position (k.write_position - k.read_position)

length-store : (buf : List ℕ) (i : ℕ) (cs : List ℕ) → length (store buf i cs) ≡ length buf
unfolding store
length-store buf i [] = refl
length-store buf i (c ∷ cs) = length-store (set buf i c) (i + 1) cs ∙ length-set buf i c

get_or-store_before :
    (buf : List ℕ) (i j : ℕ) (cs : List ℕ) → j < i → get_or (store buf i cs) j 0 ≡ get_or buf j 0
unfolding store
get_or-store_before buf i j [] h = refl
get_or-store_before buf i j (c ∷ cs) h =
    get_or-store_before (set buf i c) (i + 1) j cs (omega arith)
    ∙ get_or-set_ne buf i j c 0 (omega arith)

-- what stands in front of the bytes written is kept
slice-store_before :
    (buf : List ℕ) (i j n : ℕ) (cs : List ℕ)
    → j + n ≤ i
    → slice (store buf i cs) j n ≡ slice buf j n
slice-store_before buf i j zero cs h = refl
slice-store_before buf i j (suc n) cs h =
    rw (get_or-store_before buf i j cs (omega arith))
      (ap (◌∷◌ (get_or buf j 0)) (slice-store_before buf i (j + 1) n cs (omega arith)))

-- the bytes written are read back
slice-store :
    (buf : List ℕ) (i : ℕ) (cs rest : List ℕ)
    → i + length cs + length rest ≤ length buf
    → slice (store buf i (cs ++ rest)) i (length cs) ≡ cs
unfolding store
slice-store buf i [] rest h = refl
slice-store buf i (c ∷ cs) rest h =
    rw
      (
        get_or-store_before (set buf i c) (i + 1) i (cs ++ rest) (omega arith),
        get_or-set_self buf i c 0 (omega arith),
      )
      (ap (◌∷◌ c) (slice-store (set buf i c) (i + 1) cs rest (omega (arith, length-set buf i c))))

slice-append :
    (buf : List ℕ) (m n i j t : ℕ)
    → j ≡ i + m
    → t ≡ m + n
    → slice buf i t ≡ slice buf i m ++ slice buf j n
slice-append buf zero n i j t e f = rw (e, f) (ap₂ (slice buf) (omega arith) (omega arith))
slice-append buf (suc m) n i j t e f =
    let split : t ≡ suc (m + n) = omega arith in
    rw split (ap (◌∷◌ (get_or buf i 0)) (slice-append buf m n (i + 1) j (m + n) (omega arith) refl))

-- `vsnprintf` at a position with room for the text and its 0
module _ (buf text : List ℕ) (i size : ℕ) (fits : length text < size)
    (room : i + size ≤ length buf) where
  vsnprintf_fits : vsnprintf buf i size text ≡ store buf i (text ++ 0 ∷ [])
  unfolding vsnprintf
  vsnprintf_fits =
      let some_size : (size == 0) ≡ false = ground arith in
      rw (some_size, take_all (size - 1) text (omega arith))

  length-vsnprintf : length (vsnprintf buf i size text) ≡ length buf
  length-vsnprintf = rw vsnprintf_fits (length-store buf i (text ++ 0 ∷ []))

  -- what is pending from `r` on, before and after
  slice-vsnprintf :
      (r n t : ℕ)
      → i ≡ r + n
      → t ≡ n + length text
      → slice (vsnprintf buf i size text) r t ≡ slice buf r n ++ text
  slice-vsnprintf r n t e f =
      rw (vsnprintf_fits, slice-append (store buf i (text ++ 0 ∷ [])) n (length text) r i t e f)
        (ap₂ ◌++◌ (slice-store_before buf i r n (text ++ 0 ∷ []) (omega arith))
          (slice-store buf i text (0 ∷ []) (omega arith)))

length-vsnprintf_any :
    (buf text : List ℕ) (i size : ℕ) → length (vsnprintf buf i size text) ≡ length buf
unfolding vsnprintf
length-vsnprintf_any buf text i size = elim (Bool-cases (size == 0)) [
  | inl z ↦ rw z refl
  | inr nz ↦ rw nz (length-store buf i (take (size - 1) text ++ 0 ∷ []))
]

-- the two ways that the loop ends with a text that fits the buffer
print_appended :
    (text : List ℕ) (k : KeyLog)
    → ltb (length text) (remaining k) ≡ true
    → key_printf_P text k ≡ record k {
      buffer = vsnprintf k.buffer k.write_position (remaining k) text;
      write_position = (k.write_position + length text) % 256;
    }
unfolding key_printf_P print_loop
print_appended text k h = rw h

print_restarted :
    (text : List ℕ) (k : KeyLog)
    → ltb (length text) (remaining k) ≡ false
    → ltb (length text) 100 ≡ true
    → key_printf_P text k ≡ record {
      buffer = vsnprintf (vsnprintf k.buffer k.write_position (remaining k) text) 0 100 text;
      write_position = (0 + length text) % 256;
      read_position = 0;
    }
unfolding key_printf_P print_loop
print_restarted text k h s = rw (h, s)

module _ (text : List ℕ) (k : KeyLog) (v : IsValid k) (short : length text < 100) where
  Printed : KeyLog → Type 0
  Printed k' =
      IsValid k'
      × (pending k'
          ≡ (if ltb (k.write_position + length text) 100 then pending k ++ text else text))

  appended : ltb (length text) (remaining k) ≡ true → Printed (key_printf_P text k)
  unfolding Printed
  appended fits =
      let behind : k.write_position + length text < 100 = omega (arith, ltb→lt _ _ fits) in
      let size : remaining k ≡ 100 - k.write_position = omega arith in
      rw (print_appended text k fits, size, lt→ltb _ _ behind)
        (
          record {
            size =
                length-vsnprintf k.buffer text k.write_position (100 - k.write_position)
                  (omega arith) (omega arith)
                ∙ v.size;
            ordered = omega arith;
            inside = omega arith;
          },
          slice-vsnprintf k.buffer text k.write_position (100 - k.write_position) (omega arith)
              (omega arith) k.read_position (k.write_position - k.read_position) _ (omega arith)
              (omega arith),
        )

  restarted : ltb (length text) (remaining k) ≡ false → Printed (key_printf_P text k)
  unfolding Printed
  restarted full =
      let buf = vsnprintf k.buffer k.write_position (remaining k) text in
      let len : length buf ≡ length k.buffer =
        length-vsnprintf_any k.buffer text k.write_position (remaining k) in
      let over : ltb (k.write_position + length text) 100 ≡ false = ground arith in
      rw (print_restarted text k full (lt→ltb _ _ short), over)
        (
          record {
            size = length-vsnprintf buf text 0 100 short (omega arith) ∙ len ∙ v.size;
            ordered = omega arith;
            inside = omega arith;
          },
          slice-vsnprintf buf text 0 100 short (omega arith) 0 0 _ (omega arith) (omega arith),
        )

-- A text shorter than the buffer is appended to what is to be read, if it fits behind it; if not, what
-- was to be read is dropped and the text alone is left. The buffer stays valid.
pub key_printf_P-pending :
    (text : List ℕ) (k : KeyLog)
    → IsValid k
    → length text < 100
    → IsValid (key_printf_P text k)
      × (pending (key_printf_P text k)
          ≡ (if ltb (k.write_position + length text) 100 then pending k ++ text else text))
unfolding Printed
key_printf_P-pending text k v short = elim (Bool-cases (ltb (length text) (remaining k))) [
  | inl fits ↦ appended text k v short fits
  | inr full ↦ restarted text k v short full
]

-- A text of 100 to 255 characters leaves a write position outside the buffer.
pub key_printf_P-overlong :
    (text : List ℕ) (k : KeyLog)
    → k.write_position ≤ 100
    → 100 ≤ length text
    → length text < 256
    → (key_printf_P text k).write_position ≡ length text
unfolding key_printf_P print_loop
key_printf_P-overlong text k w lo hi =
    let a : ltb (length text) (remaining k) ≡ false = ground arith in
    let b : ltb (length text) 100 ≡ false = ground arith in rw (a, b) (omega arith)

-- Reading takes the first of the characters that are to be read, and gives 0 and changes nothing
-- when there is none; it never leaves the buffer.
pub log_consume_as_char-pending :
    (k : KeyLog)
    → IsValid k
    → ((pending k ≡ []) × (log_consume_as_char k ≡ some (0, k)))
      ⊎ ((c : ℕ) × (k' : KeyLog) × (log_consume_as_char k ≡ some (c, k'))
          × (pending k ≡ c ∷ pending k')
          × IsValid k')
unfolding log_consume_as_char
log_consume_as_char-pending k v = elim (Bool-cases (has_next k)) [
  | inl more ↦ inr (
    get_or k.buffer k.read_position 0,
    record k { read_position = k.read_position + 1 },
    ground arith,
    first (k.write_position - k.read_position) refl (ground arith),
    record { size = v.size; ordered = ground arith; inside = v.inside },
  )
  | inr nothing ↦ inl (empty (k.write_position - k.read_position) refl (ground arith), ground arith)
]
  where
    first :
        (n : ℕ)
        → k.write_position - k.read_position ≡ n
        → n ≢ 0
        → slice k.buffer k.read_position n
          ≡ get_or k.buffer k.read_position 0
            ∷ slice k.buffer (k.read_position + 1) (k.write_position - (k.read_position + 1))
    first zero e ne = absurd (ne refl)
    first (suc n) e ne =
        ap (λ m. get_or k.buffer k.read_position 0 ∷ slice k.buffer (k.read_position + 1) m)
          (omega arith)

    empty :
        (n : ℕ)
        → k.write_position - k.read_position ≡ n
        → n ≡ 0
        → slice k.buffer k.read_position n ≡ []
    empty zero e z = refl
    empty (suc n) e z = absurd (omega arith)
