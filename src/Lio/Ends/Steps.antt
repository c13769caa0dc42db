-- ===== src/Lio/Ends/Steps.antt =====
-- The conversions and the loops of the interpreter end, if the evaluator that they call does.
use phatio.Prelude.{
  ℕ, suc, ◌+◌, ◌*◌, ◌^◌, ◌≤◌, ◌<◌, ◌≡◌, ◌≢◌, ◌⊎◌, inl, inr, refl, Bool, true, false, ◌&&◌, ◌||◌,
  Option, none, some, List, ltb, leb, if◌then◌else◌, arith,
}
use phatio.Lio.Syntax.{
  Item, Expr, Pointer, Content, Reference, Machine, Outcome, M, Evaluator, list, atom, string,
  function, variable, uint8, uint16, nil, cons, wild, null, to, code, chars, words, value,
  undefined, pure, wrong, ◌>>=◌, bind,
}
use phatio.Lio.Values.{
  Device, as_list, lookup, or_wrong, byte_of, c_string, word_at, strbufsize, continue_evaluating,
  lio_stop, eval_from, eval_expressions, get_content, get_variable, uint16_step, string_step,
  eval_found,
}
use phatio.Lio.Ends.{
  Run, left, Ends, Any, NullOrLater, Ends-later, Ends-any, bind-Ends, Advances,
  continue_evaluating-Ends,
}

-- an item whose conversion calls nothing
abbrev pub Settled : Pointer → Type 0
Settled (to (list _)) = ⊥
Settled (to (variable _)) = ⊥
Settled _ = Unit

module _ {W : Type 0} (device : Device W) (start : Run W) where
  abbrev pub SettledOrLater : Machine W → Pointer → Machine W → Type 0
  SettledOrLater m p m' = Settled p ⊎ (left device start m' < left device start m)

  -- What the interpreter needs of the evaluator for its fuel to be enough.
  pub record Terminates (n : ℕ) (ev : Evaluator W) : Type 0 where
    pub eval :
        (e : Expr) (m : Machine W)
        → m.time_started ≡ start.began
        → 2 * left device start m + 1 ≤ n
        → Ends device start m (NullOrLater device start m) (ev.eval e m)
    pub number :
        (p : Pointer) (m : Machine W)
        → m.time_started ≡ start.began
        → (2 * left device start m + 2 ≤ n) ⊎ (Settled p × (1 ≤ n))
        → Ends device start m (Any device start) (ev.eval_as_uint16 p m)
    pub text :
        (p : Pointer) (m : Machine W)
        → m.time_started ≡ start.began
        → (2 * left device start m + 2 ≤ n) ⊎ (Settled p × (1 ≤ n))
        → Ends device start m (Any device start) (ev.eval_as_string p m)
    pub zero_of_null : (m : Machine W) → 1 ≤ n → ev.eval_as_uint16 null m ≡ value 0 m
    pub while :
        (test body : Expr) (ret : Pointer) (m : Machine W)
        → m.time_started ≡ start.began
        → 2 * left device start m + 2 ≤ n
        → Ends device start m (Any device start) (ev.while test body ret m)

  module _ (clock : Advances device start) (pos : start.began ≢ 0)
      (fits : start.began + 2000 < 2 ^ 32) (n : ℕ) (ev : Evaluator W) (t : Terminates n ev) where
    -- `ret`, or a pointer from a later time
    abbrev pub SameOrLater : Pointer → Machine W → Pointer → Machine W → Type 0
    SameOrLater ret m p m' = (p ≡ ret) ⊎ (left device start m' < left device start m)

    later_of :
        (ret ret' : Pointer) (m m₁ m₂ : Machine W) (o : Outcome W Pointer)
        → left device start m₂ < left device start m
        → left device start m₂ ≤ left device start m₁
        → Ends device start m₂ (SameOrLater ret' m₂) o
        → Ends device start m₁ (SameOrLater ret m) o
    later_of ret ret' m m₁ m₂ (value p m') h k (s, l, _) = (s, omega arith, inr (omega arith))
    later_of ret ret' m m₁ m₂ undefined h k e = tt
    later_of ret ret' m m₁ m₂ Outcome.exhausted h k e = e

    eval_found-Ends :
        (ret : Pointer) (o : Option Expr) (m : Machine W)
        → m.time_started ≡ start.began
        → 2 * left device start m + 1 ≤ n
        → Ends device start m (Any device start) (eval_found device ev ret o m)
    unfolding eval_found
    eval_found-Ends ret none m s fuel = (s, omega arith, tt)
    eval_found-Ends ret (some l) m s fuel =
        Ends-any device start _ m (ev.eval l m) (t.eval l m s fuel)

    Tail : Pointer → Expr → Type 0
    Tail ret e =
        (m : Machine W)
        → m.time_started ≡ start.began
        → 2 * left device start m + 1 ≤ n
        → Ends device start m (SameOrLater ret m) (eval_from device ev ret e m)

    go_on :
        (ret : Pointer) (x : Item) (e : Expr)
        → ((ret' : Pointer) → Tail ret' e)
        → (m : Machine W) → 2 * left device start m + 1 ≤ n
        → (go : Bool) (m₁ : Machine W) → m₁.time_started ≡ start.began
        → left device start m₁ ≤ left device start m
        → (go ≡ false) ⊎ (left device start m₁ < left device start m)
        → Ends device start m (SameOrLater ret m) (
            (elim go as (λ _. M W Pointer) [
              | false ↦ pure ret
              | true ↦
                  eval_found device ev ret (as_list (to x)) >>= λ ret'. eval_from device ev ret' e
            ])
              m₁)
    unfolding Tail
    go_on ret x e ih m fuel false m₁ s l d = (s, l, inl refl)
    go_on ret x e ih m fuel true m₁ s l (inl stop) = cc
    go_on ret x e ih m fuel true m₁ s l (inr d) =
        Ends-later device start (SameOrLater ret m) m m₁ _ l (
          bind-Ends device start (Any device start) (SameOrLater ret m) m₁
            (eval_found device ev ret (as_list (to x)) m₁) (λ ret'. eval_from device ev ret' e)
            (eval_found-Ends ret (as_list (to x)) m₁ s (omega arith))
            (λ ret' m₂ s₂ l₂ _.
              later_of ret ret' m m₁ m₂ _ (omega arith) l₂ (ih ret' m₂ s₂ (omega arith))))

    eval_from-Ends : (ret : Pointer) (e : Expr) → Tail ret e
    unfolding eval_from Tail
    eval_from-Ends ret nil m s fuel = (s, omega arith, inl refl)
    eval_from-Ends ret (cons x e) m s fuel =
        bind-Ends device start
          (λ go m'. (go ≡ false) ⊎ (left device start m' < left device start m)) (SameOrLater ret m)
          m (continue_evaluating device m) _
          (continue_evaluating-Ends device start clock m pos fits s)
          (go_on ret x e (λ ret'. eval_from-Ends ret' e) m fuel)

    pub eval_expressions-Ends :
        (e : Expr) (m : Machine W)
        → m.time_started ≡ start.began
        → 2 * left device start m + 1 ≤ n
        → Ends device start m (SettledOrLater m) (eval_expressions device ev e m)
    unfolding eval_expressions Tail
    eval_expressions-Ends e m s fuel =
        settle m (eval_from device ev wild e m) (eval_from-Ends wild e m s fuel)
      where
        settle :
            (m : Machine W) (o : Outcome W Pointer)
            → Ends device start m (SameOrLater wild m) o
            → Ends device start m (SettledOrLater m) o
        settle m (value p m') (s, l, inl e) = (s, l, inl (rw e tt))
        settle m (value p m') (s, l, inr d) = (s, l, inr d)
        settle m undefined e = tt
        settle m Outcome.exhausted e = e

    found-Ends :
        {A : Type 0} (o : Option A) (f : A → Pointer) (m : Machine W)
        → ((a : A) → Settled (f a))
        → m.time_started ≡ start.began
        → Ends device start m (SettledOrLater m) ((or_wrong o >>= λ a. pure (f a)) m)
    found-Ends none f m h s = tt
    found-Ends (some a) f m h s = (s, omega arith, inl (h a))

    string-Ends :
        (long : Bool) (cs : List ℕ) (m : Machine W)
        → m.time_started ≡ start.began
        → Ends device start m
            (SettledOrLater m)
            ((if long then wrong else or_wrong (c_string cs) >>= λ s. pure (to (string s))) m)
    string-Ends true cs m s = tt
    string-Ends false cs m s = found-Ends (c_string cs) (λ c. to (string c)) m (λ c. tt) s

    get_content-Ends :
        (c : Content) (len : ℕ) (has_index : Bool) (index : ℕ) (m : Machine W)
        → m.time_started ≡ start.began
        → 2 * left device start m + 1 ≤ n
        → Ends device start m (SettledOrLater m) (get_content device ev c len has_index index m)
    unfolding get_content
    get_content-Ends (code e) len has_index index m s fuel = eval_expressions-Ends e m s fuel
    get_content-Ends (chars cs) len true index m s fuel =
        found-Ends (byte_of cs index) (λ v. to (uint16 v)) m (λ v. tt) s
    get_content-Ends (chars cs) len false index m s fuel = string-Ends (ltb strbufsize len) cs m s
    get_content-Ends (words ws) len has_index index m s fuel =
        found-Ends (word_at ws (if has_index then index else 0)) (λ v. to (uint16 v)) m (λ v. tt) s

    pub get_variable-Ends :
        (ref : Option ℕ) (has_index : Bool) (index : ℕ) (m : Machine W)
        → m.time_started ≡ start.began
        → 2 * left device start m + 1 ≤ n
        → Ends device start m (SettledOrLater m) (get_variable device ev ref has_index index m)
    unfolding get_variable lio_stop
    get_variable-Ends none has_index index m s fuel = (s, omega arith, inl tt)
    get_variable-Ends (some k) has_index index m s fuel = in_reference (lookup m.defined k)
      where
        bounded :
            (r : Reference) (out : Bool)
            → Ends device start m (SettledOrLater m) (
                if out
                then value null m
                else get_content device ev r.content r.length has_index index m)
        bounded r true = (s, omega arith, inl tt)
        bounded r false = get_content-Ends r.content r.length has_index index m s fuel

        in_reference :
            (o : Option Reference)
            → Ends device start m (SettledOrLater m) (elim o as (λ _. Outcome W Pointer) [
              | none ↦ undefined
              | some r ↦
                  if has_index && (leb 32768 index || leb r.length index)
                  then value null m
                  else get_content device ev r.content r.length has_index index m
            ])
        in_reference none = tt
        in_reference (some r) = bounded r (has_index && (leb 32768 index || leb r.length index))

    -- a conversion of what a call gives, when the evaluator converts settled pointers with little fuel
    converted :
        {A : Type 0} (conv : Pointer → M W A) (m : Machine W) (o : Outcome W Pointer)
        → ((p : Pointer) (m' : Machine W)
            → m'.time_started ≡ start.began
            → (2 * left device start m' + 2 ≤ n) ⊎ (Settled p × (1 ≤ n))
            → Ends device start m' (Any device start) (conv p m'))
        → 2 * left device start m + 1 ≤ n
        → Ends device start m (SettledOrLater m) o
        → Ends device start m (Any device start) (bind o conv)
    converted conv m o h fuel e =
        bind-Ends device start (SettledOrLater m) (Any device start) m o conv e (λ p m' s l d.
          Ends-later device start (Any device start) m m' (conv p m') l (h p m' s (enough p m' d)))
      where
        enough :
            (p : Pointer) (m' : Machine W)
            → SettledOrLater m p m'
            → (2 * left device start m' + 2 ≤ n) ⊎ (Settled p × (1 ≤ n))
        enough p m' (inl c) = inr (c, omega arith)
        enough p m' (inr d) = inl (omega arith)

    pub null_settles :
        (m : Machine W) (o : Outcome W Pointer)
        → Ends device start m (NullOrLater device start m) o
        → Ends device start m (SettledOrLater m) o
    null_settles m (value p m') (s, l, inl e) = (s, l, inl (rw e tt))
    null_settles m (value p m') (s, l, inr d) = (s, l, inr d)
    null_settles m undefined e = tt
    null_settles m Outcome.exhausted e = e

    abbrev Enough : Pointer → Machine W → Type 0
    Enough p m = (2 * left device start m + 2 ≤ suc n) ⊎ (Settled p × (1 ≤ suc n))

    pub uint16_step-Ends :
        (p : Pointer) (m : Machine W)
        → m.time_started ≡ start.began
        → Enough p m
        → Ends device start m (Any device start) (uint16_step device ev p m)
    unfolding uint16_step
    uint16_step-Ends (to (variable k)) m s (inl fuel) =
        converted ev.eval_as_uint16 m _ t.number (omega arith)
          (get_variable-Ends (some k) false 0 m s (omega arith))
    uint16_step-Ends (to (list e)) m s (inl fuel) =
        converted ev.eval_as_uint16 m _ t.number (omega arith)
          (null_settles m _ (t.eval e m s (omega arith)))
    uint16_step-Ends (to (variable k)) m s (inr c) = absurd c.0
    uint16_step-Ends (to (list e)) m s (inr c) = absurd c.0
    uint16_step-Ends wild m s _ = tt
    uint16_step-Ends null m s _ = (s, omega arith, tt)
    uint16_step-Ends (to (uint16 v)) m s _ = (s, omega arith, tt)
    uint16_step-Ends (to (uint8 v)) m s _ = (s, omega arith, tt)
    uint16_step-Ends (to (atom v)) m s _ = (s, omega arith, tt)
    uint16_step-Ends (to (string v)) m s _ = (s, omega arith, tt)
    uint16_step-Ends (to (function v)) m s _ = (s, omega arith, tt)

    pub string_step-Ends :
        (p : Pointer) (m : Machine W)
        → m.time_started ≡ start.began
        → Enough p m
        → Ends device start m (Any device start) (string_step device ev p m)
    unfolding string_step
    string_step-Ends (to (variable k)) m s (inl fuel) =
        converted ev.eval_as_string m _ t.text (omega arith)
          (get_variable-Ends (some k) false 0 m s (omega arith))
    string_step-Ends (to (list e)) m s (inl fuel) =
        converted ev.eval_as_string m _ t.text (omega arith)
          (null_settles m _ (t.eval e m s (omega arith)))
    string_step-Ends (to (variable k)) m s (inr c) = absurd c.0
    string_step-Ends (to (list e)) m s (inr c) = absurd c.0
    string_step-Ends wild m s _ = tt
    string_step-Ends null m s _ = (s, omega arith, tt)
    string_step-Ends (to (uint16 v)) m s _ = (s, omega arith, tt)
    string_step-Ends (to (uint8 v)) m s _ = (s, omega arith, tt)
    string_step-Ends (to (atom v)) m s _ = (s, omega arith, tt)
    string_step-Ends (to (string v)) m s _ = (s, omega arith, tt)
    string_step-Ends (to (function v)) m s _ = (s, omega arith, tt)
