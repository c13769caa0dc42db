-- ===== src/Lio/Lexer/Text.antt =====
-- The tokens of a script and how they are written, for `next_token` of src/lio.c.
use phatio.Prelude.{ℕ, Bool, true, false, not, ◌&&◌, List, [], ◌∷◌, ◌++◌, length, leb, ◌==◌}
use phatio.Lio.Lexer.{Class, class_of}

pub data Token : Type 0 where
  word quoted : List ℕ → Token
  left right : Token

abbrev pub spell : Token → List ℕ
spell (Token.word cs) = cs
spell (Token.quoted cs) = 34 ∷ (cs ++ (34 ∷ []))
spell Token.left = 40 ∷ []
spell Token.right = 41 ∷ []

-- what is needed between a token and those behind it
abbrev pub gap : Token → List Token → List ℕ
gap (Token.word cs) (Token.word ds ∷ ts) = 32 ∷ []
gap (Token.word cs) [] = 10 ∷ []
gap (Token.word cs) (t ∷ ts) = []
gap t ts = []

abbrev pub print : List Token → List ℕ
print [] = []
print (t ∷ ts) = spell t ++ (gap t ts ++ print ts)

abbrev pub is_plain : Class → Bool
is_plain Class.plain = true
is_plain c = false

abbrev pub all_plain : List ℕ → Bool
all_plain [] = true
all_plain (c ∷ cs) = not (c == 0) && (is_plain (class_of c) && all_plain cs)

-- The characters of a string up to the quote that ends it, behind the character `last`; a quote among
-- them has a backslash before it.
abbrev pub is_inside : ℕ → List ℕ → Bool
is_inside last [] = not (last == 92)
is_inside last (c ∷ cs) = not (c == 0) && (not ((c == 34) && not (last == 92)) && is_inside c cs)

-- The token can be read, and fits in the buffer of 48 bytes.
abbrev pub is_token : Token → Bool
is_token (Token.word []) = false
is_token (Token.word (c ∷ cs)) = all_plain (c ∷ cs) && leb (length cs) 46
is_token (Token.quoted cs) = is_inside 0 cs && leb (length cs) 45
is_token t = true

abbrev pub all_tokens : List Token → Bool
all_tokens [] = true
all_tokens (t ∷ ts) = is_token t && all_tokens ts
