-- ===== src/Tests/Scripts.antt =====
-- Runs for the reader and the evaluator of scripts, src/lio.c, and for the keyboard, src/keyboard.c.
use phatio.Prelude.{
  ◌/◌, ◌-◌, ℕ, zero, suc, ◌+◌, ◌%◌, ◌<◌, ◌∙◌, ◌==◌, ◌||◌, if◌then◌else◌, get_or, take, ◌≡◌, ◌≢◌,
  refl, true, false, Option, none, some, List, [], ◌∷◌, replicate, arith,
}
use phatio.Pins.Ports.{strcmp_eq}
use phatio.CharSource.{StringSource, string_source, string_reader, string_putbacker}
use phatio.Lio.Syntax.{Builtin, Item, Expr, Machine, to, null, value, exhausted, nil, cons}
use phatio.Lio.Values.{Device}
use phatio.Lio.Eval.{evaluator, safe_eval, safe_evalexpressions}
use phatio.Lio.Ends.Limit.{safe_eval-ne-exhausted}
use phatio.Lio.Arithmetic.{
  Operation, Sum, constant, operation, written, ticks, eval_as_uint16-meaning,
}
use phatio.Lio.Lexer.{next_tokens, from_string}
use phatio.Lio.Lexer.Text.{Token, print}
use phatio.Lio.Lexer.Tokens.{next_tokens-print}
use phatio.Lio.Reader.{Result, next_expression}
use phatio.Lio.Names.{Index, find_index, name_map, find_index-position}
use phatio.Lio.Flash.{Flash, Holds, store_expression, store_expression-Holds}
use phatio.Keyboard.{map_keys}
use phatio.Keyboard.Layout.{press, types, map_keys-types}
use phatio.Lio.Reader.Bounds.{next_expression-ne-overrun}

-- a device whose clock is its state, without further handlers
abbrev device : Device ℕ
device = record {
  millis = λ w. w;
  tick = suc;
  wait = suc;
  stop = λ w. w;
  parse_number = λ s. none;
  print_number = λ n. [];
  store = λ e w. (true, w);
  external = λ k ev e m. value null m;
}

-- (while (+ 1 0) (+ 1 1))
abbrev loop : Expr
loop = cons (Item.function Builtin.while_handler) (
    cons (written (operation Operation.plus (constant 1) (constant 0)))
      (cons (written (operation Operation.plus (constant 1) (constant 1))) nil))

abbrev machine : Machine ℕ
machine = record {
  heap = record { free_data = 0; lio_stopped = false };
  defined = [];
  references = [];
  time_started = 0;
  rest = 1000;
}

-- the clock can be read four times in a millisecond
abbrev fine_device : Device ℕ
fine_device = record device { millis = λ w. w / 4; wait = λ w. w + 4 }

abbrev fine_machine : Machine ℕ
fine_machine = record machine { rest = 4000 }

safe_eval-ne-exhausted_example :
    (safe_eval fine_device 16009 loop fine_machine ≢ exhausted)
    × (safe_evalexpressions fine_device 16009 loop fine_machine ≢ exhausted)
safe_eval-ne-exhausted_example =
    safe_eval-ne-exhausted fine_device loop fine_machine 16009 (λ w. 12004 - w)
      (record {
        tick = λ w h. omega arith;
        later = λ w. omega arith;
        wait = λ w. omega arith;
        stop = λ w. omega arith;
        store = λ e w. omega arith;
      })
      (omega arith) (omega arith) (λ k n ev t e. record { ends = λ m s fuel. (s, omega arith, tt) })
      (omega arith)

abbrev running : Machine ℕ
running = record machine { time_started = 1000 }

millis_ticks : (k w : ℕ) → ticks device k w ≡ w + k
millis_ticks zero w = omega arith
millis_ticks (suc k) w = millis_ticks k (suc w) ∙ omega arith

-- (- (* 300 (+ 7 4)) 5)
abbrev sum : Sum
sum =
    operation Operation.minus
      (operation Operation.times (constant 300)
        (operation Operation.plus (constant 7) (constant 4)))
      (constant 5)

eval_as_uint16-meaning_example :
    (evaluator device 7).eval_as_uint16 (to (written sum)) running
    ≡ value 3295 (record running { rest = 1003 })
eval_as_uint16-meaning_example =
    eval_as_uint16-meaning device sum 7 running
      (record {
        started = omega arith;
        going = refl;
        fits = omega arith;
        within = λ k h. omega (arith, h, millis_ticks k 1000);
      })
      (omega arith)

-- (if "a b" (+ 1 c))
abbrev tokens : List Token
tokens =
    Token.left
    ∷ Token.word (105 ∷ 102 ∷ [])
    ∷ Token.quoted (97 ∷ 32 ∷ 98 ∷ [])
    ∷ Token.left
    ∷ Token.word (43 ∷ [])
    ∷ Token.word (49 ∷ [])
    ∷ Token.word (99 ∷ [])
    ∷ Token.right
    ∷ Token.right
    ∷ []

next_tokens-print_example :
    next_tokens from_string 30 9 (string_source (print tokens))
    ≡ some (
        (40 ∷ [])
        ∷ (105 ∷ 102 ∷ [])
        ∷ (34 ∷ 97 ∷ 32 ∷ 98 ∷ 34 ∷ [])
        ∷ (40 ∷ [])
        ∷ (43 ∷ [])
        ∷ (49 ∷ [])
        ∷ (99 ∷ [])
        ∷ (41 ∷ [])
        ∷ (41 ∷ [])
        ∷ [])
next_tokens-print_example = next_tokens-print tokens 30 refl (omega arith)

-- `+` and `if` are functions, at 0x1234.
abbrev resolve : List ℕ → Option (ℕ × ℕ)
resolve t = if (get_or t 0 0 == 43) || (get_or t 0 0 == 105) then some (3, 0x1234) else none

-- the digit 1, and nothing else
abbrev digit : List ℕ → Option ℕ
digit t = if get_or t 0 0 == 49 then some 1 else none

abbrev bytes : Result StringSource → List ℕ
bytes (Result.expression b s) = take 24 b
bytes _ = []

read_tokens :
    bytes (
      next_expression from_string resolve digit 40 (replicate 255 0) (string_source (print tokens)))
    ≡ 4 ∷ 3 ∷ 52 ∷ 18 ∷ 6 ∷ 5 ∷ 97 ∷ 32 ∷ 98 ∷ 0 ∷ 0 ∷ 1 ∷ 4 ∷ 3 ∷ 52 ∷ 18 ∷ 3 ∷ 6 ∷ 1 ∷ 0 ∷ 2 ∷ 99
      ∷ 0 ∷ 0 ∷ []
unfolding next_expression string_source string_reader string_putbacker
read_tokens = refl

next_expression-ne-overrun_example :
    next_expression from_string resolve digit 40 (replicate 255 0) (string_source (print tokens))
    ≢ Result.overrun
next_expression-ne-overrun_example =
    next_expression-ne-overrun from_string resolve digit 40 (replicate 255 0)
      (string_source (print tokens))

-- the names +, if and or
abbrev names : List (List ℕ)
names = (105 ∷ 102 ∷ []) ∷ (111 ∷ 114 ∷ []) ∷ []

find_index-position_example :
    find_index (105 ∷ 102 ∷ []) (name_map ((43 ∷ []) ∷ names)) ≡ Index.found 1
unfolding strcmp_eq
find_index-position_example =
    find_index-position (105 ∷ 102 ∷ []) (43 ∷ []) names (omega arith)
      (omega arith, (omega arith, tt))
      (
        λ e. cc,
        (
          (omega arith, tt),
          (
            λ e. cc,
            ((omega arith, (omega arith, tt)), (λ e. cc, ((omega arith, (omega arith, tt)), tt))),
          ),
        ),
      )

-- The key `a` is pressed, and one character taken.
map_keys-types_example :
    (modifier : ℕ) × (usage : ℕ) × ((map_keys digit (97 ∷ 98 ∷ 0 ∷ []) (replicate 8 0) true
        ≡ some (1, press modifier usage))
      × (types modifier usage ≡ 97))
map_keys-types_example =
    map_keys-types digit 97 98 (0 ∷ []) true (omega arith) (omega arith) (omega arith) (omega arith)

abbrev erased : Flash
erased = record { bytes = λ a. 255; current = 0x6800; stopped = false }

-- 200 bytes at 256, which take two pages
store_expression-Holds_example :
    let (address, f') = store_expression (λ a. a % 256) 256 200 erased in
    (address ≡ 0x6800)
    × (Holds f'.bytes address 200 (λ a. a % 256) 256 × ((a : ℕ) → a < 0x6800 → f'.bytes a ≡ 255))
store_expression-Holds_example =
    store_expression-Holds (λ a. a % 256) 256 200 erased (omega arith) (omega arith) (omega arith)
