-- ===== src/Lio/Lexer/Tokens.antt =====
-- The tokens of a script are read again from their text, on `next_token` of src/lio.c.
use phatio.Prelude.{
  ℕ, zero, suc, ◌<◌, ◌≤◌, ◌≡◌, refl, ap, ◌∙◌, true, none, some, List, [], ◌∷◌, ◌++◌, map, length,
  length-append, arith,
}
use phatio.CharSource.{StringSource, string_source, string_reader, take_char, string_putbacker}
use phatio.Lio.Lexer.{Lexed, token_from, next_token, next_tokens, from_string}
use phatio.Lio.Lexer.Text.{Token, spell, gap, print, all_plain, is_token, all_tokens}
use phatio.Lio.Lexer.Turns.{append_snoc, next_token-word, next_token-quoted, next_token-paren}

-- `text` is what is read from `s`.
abbrev Holds : StringSource → List ℕ → Type 0
Holds s text = string_reader s ≡ string_reader (string_source text)

next_token-Holds :
    (f : ℕ) (s : StringSource) (text : List ℕ)
    → Holds s text
    → next_token from_string f s ≡ next_token from_string f (string_source text)
unfolding next_token token_from
next_token-Holds zero s text h = refl
next_token-Holds (suc f) s text h = rw h refl

-- What a token and the rest of the text are read as.
abbrev IsRead : ℕ → Token → List Token → Type 0
IsRead f t ts =
    (s : StringSource) × ((next_token from_string f (string_source (print (t ∷ ts)))
        ≡ Lexed.token (spell t) s)
      × Holds s (print ts))

word-IsRead :
    (c : ℕ) (cs : List ℕ) (f : ℕ) (ts : List Token)
    → suc (length cs) < f
    → all_plain (c ∷ cs) ≡ true
    → length cs ≤ 46
    → IsRead f (Token.word (c ∷ cs)) ts
unfolding string_reader string_putbacker string_source take_char
word-IsRead c cs f [] l p b = (_, (next_token-word c cs f 10 [] l p b (omega arith) refl, refl))
word-IsRead c cs f (Token.word ds ∷ ts) l p b =
    (_, (next_token-word c cs f 32 (print (Token.word ds ∷ ts)) l p b (omega arith) refl, refl))
word-IsRead c cs f (Token.quoted ds ∷ ts) l p b =
    let rest = (ds ++ (34 ∷ [])) ++ print ts in
    (_, (next_token-word c cs f 34 rest l p b (omega arith) refl, refl))
word-IsRead c cs f (Token.left ∷ ts) l p b =
    (_, (next_token-word c cs f 40 (print ts) l p b (omega arith) refl, refl))
word-IsRead c cs f (Token.right ∷ ts) l p b =
    (_, (next_token-word c cs f 41 (print ts) l p b (omega arith) refl, refl))

token-IsRead :
    (f : ℕ) (t : Token) (ts : List Token) → is_token t ≡ true → length (spell t) < f → IsRead f t ts
token-IsRead f (Token.word []) ts h l = absurd (ground arith)
token-IsRead f (Token.word (c ∷ cs)) ts h l =
    word-IsRead c cs f ts (ground arith) (ground arith) (ground arith)
token-IsRead f (Token.quoted cs) ts h l =
    let b = length-append cs (34 ∷ []) in
    rw (append_snoc cs 34 (print ts)) (
      _,
      (next_token-quoted cs f (print ts) (omega (arith, b)) (ground arith) (ground arith), refl),
    )
token-IsRead zero t ts h l = absurd (omega arith)
token-IsRead (suc f) Token.left ts h l =
    (_, (next_token-paren 40 f (print ts) (omega arith) refl, refl))
token-IsRead (suc f) Token.right ts h l =
    (_, (next_token-paren 41 f (print ts) (omega arith) refl, refl))

next_tokens-step :
    (f n : ℕ) (s s' : StringSource) (t : List ℕ) (us : List (List ℕ))
    → next_token from_string f s ≡ Lexed.token t s'
    → next_tokens from_string f n s' ≡ some us
    → next_tokens from_string f (suc n) s ≡ some (t ∷ us)
unfolding next_tokens
next_tokens-step f n s s' t us p q =
    ap
      (λ r. elim r [
        | Lexed.token t s' ↦ elim (next_tokens from_string f n s') [
          | none ↦ none
          | some ts ↦ some (t ∷ ts)
        ]
        | Lexed.ended t s' ↦ none
        | Lexed.overflow ↦ none
        | Lexed.exhausted ↦ none
      ])
      p
    ∙ rw q refl

-- Tokens that can be read and fit in the buffer are read again from the text that is printed of them, one
-- after the other, with fuel for more characters than the text has.
pub next_tokens-print :
    (ts : List Token) (f : ℕ)
    → all_tokens ts ≡ true
    → length (print ts) < f
    → next_tokens from_string f (length ts) (string_source (print ts)) ≡ some (map spell ts)
unfolding next_tokens
next_tokens-print ts f h l = from ts (string_source (print ts)) h l refl
  where
    from :
        (ts : List Token) (s : StringSource)
        → all_tokens ts ≡ true
        → length (print ts) < f
        → Holds s (print ts)
        → next_tokens from_string f (length ts) s ≡ some (map spell ts)
    from [] s h l e = refl
    from (t ∷ ts) s h l e =
        let b₁ = length-append (spell t) (gap t ts ++ print ts) in
        let b₂ = length-append (gap t ts) (print ts) in
        let (s', (p, e')) = token-IsRead f t ts (ground arith) (omega (arith, b₁, b₂)) in
        next_tokens-step f (length ts) s s' (spell t) (map spell ts)
          (next_token-Holds f s (print (t ∷ ts)) e ∙ p)
          (from ts s' (ground arith) (omega (arith, b₁, b₂)) e')
