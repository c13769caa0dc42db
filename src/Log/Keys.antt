-- ===== src/Log/Keys.antt =====
-- The key buffer of src/log.c. `key_printf_P` is given the text that its format makes. A position is a
-- uint8_t. `none` is a read outside the buffer.
use phatio.Prelude.{
  ℕ, zero, suc, ◌+◌, ◌-◌, ◌%◌, ◌^◌, Bool, not, ◌&&◌, Option, none, some, List, [], ◌∷◌, ◌++◌,
  get_or, set, length, take, ltb, ◌==◌, if◌then◌else◌,
}

abbrev pub buffer_len : ℕ
buffer_len = 100

pub record KeyLog : Type 0 where
  pub buffer : List ℕ
  pub write_position : ℕ
  pub read_position : ℕ

-- bytes written one after the other from index `i` on
unfoldable pub store : List ℕ → ℕ → List ℕ → List ℕ
store buf i [] = buf
store buf i (c ∷ cs) = store (set buf i c) (i + 1) cs

-- `vsnprintf(buffer + i, size, ...)`: at most `size - 1` bytes of the text and a 0, and nothing where
-- `size` is 0
unfoldable pub vsnprintf : List ℕ → ℕ → ℕ → List ℕ → List ℕ
unfolding store
vsnprintf buf i size text = if size == 0 then buf else store buf i (take (size - 1) text ++ 0 ∷ [])

-- `uint16_t buffer_remaining = BUFFER_LEN - write_position`
abbrev pub remaining : KeyLog → ℕ
remaining k = (buffer_len + 2 ^ 16 - k.write_position) % 2 ^ 16

-- the loop of `key_printf_P`, with the rounds left
unfoldable pub print_loop : ℕ → List ℕ → KeyLog → KeyLog
unfolding vsnprintf
print_loop zero text k = k
print_loop (suc rounds) text k =
    let printed = record k { buffer = vsnprintf k.buffer k.write_position (remaining k) text } in
    let rest = print_loop rounds text (record printed { write_position = 0; read_position = 0 }) in
    if ltb (length text) (remaining k) then printed else rest

unfoldable pub key_printf_P : List ℕ → KeyLog → KeyLog
unfolding print_loop
key_printf_P text k =
    let k' = print_loop 2 text k in
    record k' { write_position = (k'.write_position + length text) % 256 }

abbrev pub has_next : KeyLog → Bool
has_next k = not (k.write_position == 0) && ltb k.read_position k.write_position

-- the character, 0 for none
unfoldable pub log_consume_as_char : KeyLog → Option (ℕ × KeyLog)
log_consume_as_char k =
    if has_next k
    then if ltb k.read_position (length k.buffer)
      then some (
        get_or k.buffer k.read_position 0,
        record k { read_position = (k.read_position + 1) % 256 },
      )
      else none
    else some (0, k)
