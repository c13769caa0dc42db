-- ===== src/Lio/Lexer/Turns.antt =====
-- One token, character by character, on `next_token` of src/lio.c.
use phatio.Prelude.{
  ℕ, zero, suc, ◌+◌, ◌<◌, ◌≤◌, ◌≡◌, ◌≢◌, refl, sym, ap, ◌∙◌, Bool, true, false, not, ◌&&◌, List, [],
  ◌∷◌, ◌++◌, length, ◌==◌, if◌then◌else◌, arith,
}
use phatio.CharSource.{StringSource, string_source, string_reader, take_char, string_putbacker}
use phatio.Lio.Lexer.{
  Class, class_of, Lexed, finish, read_quoted, token_from, switch, next_token, from_string,
}
use phatio.Lio.Lexer.Text.{is_plain, all_plain, is_inside}

append_nil : {A : Type 0} (xs : List A) → xs ++ [] ≡ xs
append_nil [] = refl
append_nil (x ∷ xs) = ap (x ∷◌) (append_nil xs)

pub append_snoc :
    {A : Type 0} (xs : List A) (y : A) (ys : List A) → (xs ++ (y ∷ [])) ++ ys ≡ xs ++ (y ∷ ys)
append_snoc [] y ys = refl
append_snoc (x ∷ xs) y ys = ap (x ∷◌) (append_snoc xs y ys)

is_plain-eq : (k : Class) → is_plain k ≡ true → k ≡ Class.plain
is_plain-eq Class.plain h = refl
is_plain-eq Class.comment h = absurd (ground arith)
is_plain-eq Class.blank h = absurd (ground arith)
is_plain-eq Class.paren h = absurd (ground arith)
is_plain-eq Class.quote h = absurd (ground arith)

abbrev delimits : Class → Bool
delimits Class.blank = true
delimits Class.paren = true
delimits Class.quote = true
delimits k = false

-- the source after a word that `d` ends
abbrev pub behind : Class → ℕ → List ℕ → StringSource
behind Class.blank d ds = string_source ds
behind k d ds = string_putbacker d (string_source ds)

reads :
    (c : ℕ) (cs : List ℕ) → c ≢ 0 → string_reader (string_source (c ∷ cs)) ≡ (c, string_source cs)
unfolding string_source string_reader take_char
reads c cs h = ground arith

stop :
    (k : Class) (f : ℕ) (loop : Bool → List ℕ → StringSource → Lexed StringSource) (d : ℕ)
    (buf ds : List ℕ)
    → delimits k ≡ true
    → switch from_string f loop d k true buf (string_source ds)
      ≡ finish (length buf + 1) (Lexed.token buf (behind k d ds))
unfolding switch
stop Class.blank f loop d buf ds h = refl
stop Class.paren f loop d buf ds h = refl
stop Class.quote f loop d buf ds h = refl
stop Class.plain f loop d buf ds h = absurd (ground arith)
stop Class.comment f loop d buf ds h = absurd (ground arith)

-- a turn of the loop that reads `c`
turn :
    (f : ℕ) (started : Bool) (buf : List ℕ) (c : ℕ) (cs : List ℕ)
    → c ≢ 0
    → token_from from_string (suc f) started buf (string_source (c ∷ cs))
      ≡ switch from_string f
          (token_from from_string f)
          c
          (class_of c)
          started
          buf
          (string_source cs)
unfolding token_from
turn f started buf c cs h = rw (reads c cs h) (ground arith)

all_plain-cons :
    (c : ℕ) (cs : List ℕ)
    → all_plain (c ∷ cs) ≡ true
    → (c ≢ 0) × ((class_of c ≡ Class.plain) × (all_plain cs ≡ true))
all_plain-cons c cs p = (ground arith, (is_plain-eq (class_of c) (ground arith), ground arith))

-- what is returned for the word `buf`
abbrev whole : List ℕ → ℕ → List ℕ → Lexed StringSource
whole buf d ds = finish (length buf + 1) (Lexed.token buf (behind (class_of d) d ds))

switch_class :
    (k₁ k₂ : Class) (f c : ℕ) (started : Bool) (buf cs : List ℕ)
    → k₁ ≡ k₂
    → switch from_string f (token_from from_string f) c k₁ started buf (string_source cs)
      ≡ switch from_string f (token_from from_string f) c k₂ started buf (string_source cs)
switch_class k₁ k₂ f c started buf cs e =
    ap (λ k. switch from_string f (token_from from_string f) c k started buf (string_source cs)) e

-- a turn in which `c` is added to the word
plain_turn :
    (f : ℕ) (started : Bool) (buf : List ℕ) (c : ℕ) (cs : List ℕ)
    → c ≢ 0
    → class_of c ≡ Class.plain
    → token_from from_string (suc f) started buf (string_source (c ∷ cs))
      ≡ token_from from_string f true (buf ++ (c ∷ [])) (string_source cs)
unfolding switch
plain_turn f started buf c cs z k =
    turn f started buf c cs z ∙ switch_class (class_of c) Class.plain f c started buf cs k

in_word :
    (cs : List ℕ) (f : ℕ) (buf : List ℕ) (d : ℕ) (ds : List ℕ)
    → length cs < f
    → all_plain cs ≡ true
    → d ≢ 0
    → delimits (class_of d) ≡ true
    → token_from from_string f true buf (string_source (cs ++ (d ∷ ds))) ≡ whole (buf ++ cs) d ds
in_word cs zero buf d ds l p n e = absurd (omega arith)
in_word [] (suc f) buf d ds l p n e =
    turn f true buf d ds n ∙ (stop (class_of d) f _ d buf ds e ∙ rw (append_nil buf) refl)
in_word (c ∷ cs) (suc f) buf d ds l p n e =
    let (z, (k, q)) = all_plain-cons c cs p in
    plain_turn f true buf c (cs ++ (d ∷ ds)) z k
    ∙ (in_word cs f (buf ++ (c ∷ [])) d ds (omega arith) q n e
        ∙ ap (λ b. whole b d ds) (append_snoc buf c cs))

pub next_token-word :
    (c : ℕ) (cs : List ℕ) (f d : ℕ) (ds : List ℕ)
    → suc (length cs) < f
    → all_plain (c ∷ cs) ≡ true
    → length cs ≤ 46
    → d ≢ 0
    → delimits (class_of d) ≡ true
    → next_token from_string f (string_source (c ∷ (cs ++ (d ∷ ds))))
      ≡ Lexed.token (c ∷ cs) (behind (class_of d) d ds)
unfolding next_token
next_token-word c cs zero d ds l p b n e = absurd (omega arith)
next_token-word c cs (suc f) d ds l p b n e =
    let (z, (k, q)) = all_plain-cons c cs p in
    plain_turn f false [] c (cs ++ (d ∷ ds)) z k
    ∙ (in_word cs f (c ∷ []) d ds (omega arith) q n e ∙ ground arith)

is_inside-cons :
    (last c : ℕ) (cs : List ℕ)
    → is_inside last (c ∷ cs) ≡ true
    → (c ≢ 0) × ((((c == 34) && not (last == 92)) ≡ false) × (is_inside c cs ≡ true))
is_inside-cons last c cs h = (ground arith, (ground arith, ground arith))

-- a turn of the loop that reads `c` inside a string
quoted_turn :
    (f last c : ℕ) (buf cs : List ℕ) (b : Bool)
    → c ≢ 0
    → ((c == 34) && not (last == 92)) ≡ b
    → read_quoted from_string (suc f) last buf (string_source (c ∷ cs)) ≡ (
        if b
        then finish (length buf + 2) (Lexed.token (buf ++ (34 ∷ [])) (string_source cs))
        else read_quoted from_string f c (buf ++ (c ∷ [])) (string_source cs))
unfolding read_quoted
quoted_turn f last c buf cs b h e = rw (reads c cs h) (rw (sym e) (ground arith))

in_quoted :
    (cs : List ℕ) (f last : ℕ) (buf ds : List ℕ)
    → length cs < f
    → is_inside last cs ≡ true
    → read_quoted from_string f last buf (string_source (cs ++ (34 ∷ ds)))
      ≡ finish (length (buf ++ cs) + 2) (Lexed.token ((buf ++ cs) ++ (34 ∷ [])) (string_source ds))
unfolding read_quoted
in_quoted cs zero last buf ds l h = absurd (omega arith)
in_quoted [] (suc f) last buf ds l h =
    rw (append_nil buf) (quoted_turn f last 34 buf ds true (omega arith) h)
in_quoted (c ∷ cs) (suc f) last buf ds l h =
    let (z, (k, q)) = is_inside-cons last c cs h in
    quoted_turn f last c buf (cs ++ (34 ∷ ds)) false z k
    ∙ rw (sym (append_snoc buf c cs)) (in_quoted cs f c (buf ++ (c ∷ [])) ds (omega arith) q)

pub next_token-quoted :
    (cs : List ℕ) (f : ℕ) (ds : List ℕ)
    → suc (length cs) < f
    → is_inside 0 cs ≡ true
    → length cs ≤ 45
    → next_token from_string f (string_source (34 ∷ (cs ++ (34 ∷ ds))))
      ≡ Lexed.token (34 ∷ (cs ++ (34 ∷ []))) (string_source ds)
unfolding next_token switch
next_token-quoted cs zero ds l h b = absurd (omega arith)
next_token-quoted cs (suc f) ds l h b =
    turn f false [] 34 (cs ++ (34 ∷ ds)) (omega arith)
    ∙ (in_quoted cs f 0 (34 ∷ []) ds (omega arith) h ∙ ground arith)

pub next_token-paren :
    (c f : ℕ) (ds : List ℕ)
    → c ≢ 0
    → class_of c ≡ Class.paren
    → next_token from_string (suc f) (string_source (c ∷ ds))
      ≡ Lexed.token (c ∷ []) (string_source ds)
unfolding next_token switch
next_token-paren c f ds z k =
    turn f false [] c ds z ∙ switch_class (class_of c) Class.paren f c false [] ds k
