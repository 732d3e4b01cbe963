-- ===== src/Parse/Expr.antt =====
-- Expressions: `parse_subexpr`, `push_arg` and `array_to_list` of parse/parse.c. The cells that they
-- are made of are built by an interface.
pub mod Loop
pub mod Grammar
pub mod Quotes
pub mod Matching
mod Tests
use poprc.Prelude.{
  ℕ, zero, suc, ◌+◌, ◌-◌, ◌≡◌, Bool, true, false, ◌&&◌, ◌||◌, not, List, [], ◌∷◌, ◌++◌, Option,
  none, some, ltb, ◌==◌, if◌then◌else◌, length, get_or, drop, ◌%◌, ◌^◌,
}
use mathlib.Core.List.{reverse}
use poprc.Token.Class.{
  Run, done, thrown, out_of_fuel, CharClass, ◌=c◌, cc_none, cc_numeric, cc_float, cc_alpha,
  cc_symbol, cc_bracket, cc_var, cc_comment, cc_dot, cc_string, cc_comma,
}
use poprc.Token.Lex.{Token}
use poprc.Parse.Words.{tok_seg, is_uppercase}

-- What the parser uses of the cells: a cell is its address, `none` is a failed assertion, or an
-- exhausted store. `missing` counts the arguments that a cell still needs.
pub record CellBuilder : Type 1 where
  pub Store : Type 0
  pub int_val : List ℕ → Store → Option (ℕ × Store)
  pub float_val : List ℕ → Store → Option (Option ℕ × Store)
  -- Of the first characters at an address
  pub make_unescaped_string : List ℕ → (n : ℕ) → Store → Option (ℕ × Store)
  pub string_symbol : List ℕ → Store → Option (ℕ × Store)
  -- `parse_word`, with the number of arguments on the stack; it may find no word.
  pub parse_word : List ℕ → ℕ → Store → Option (Option ℕ × Store)
  pub is_value : Store → ℕ → Bool
  pub is_placeholder : Store → ℕ → Bool
  pub missing : Store → ℕ → ℕ
  pub arg : (c a : ℕ) → Store → Store
  -- `expand_deps(ph, 1)`, and a new dependency as its argument
  pub expand_deps : ℕ → Store → ℕ × ℕ × Store
  pub outs : Store → ℕ → List ℕ
  pub set_src : ℕ → List ℕ → Store → Store
  pub drop_cell : ℕ → Store → Store
  pub make_list : List ℕ → Store → Option (ℕ × Store)

abbrev pub max_args : ℕ
max_args = 32

abbrev pub max_parse_depth : ℕ
max_parse_depth = 32

-- `seg.n - 2` in 64 bits
abbrev pub less_two : ℕ → ℕ
less_two n = (n + (2 ^ 64 - 2)) % 2 ^ 64

-- The tokens that the brackets of an expression are made of
pub data Punctuation : Type 0 where
  opening closing comma paren word : Punctuation

abbrev pub by_char : ℕ → Punctuation
by_char c =
    if c == b','
    then comma
    else if c == b']'
    then closing
    else if c == b'['
    then opening
    else if c == b'(' || c == b')'
    then paren
    else word

-- A token of one character, by it
abbrev pub char_kind : List ℕ → Token → Punctuation
char_kind text t = if t.length == 1 then by_char (get_or (tok_seg text t) 0 0) else word

-- `word` is every token that is no bracket or comma, or is longer than these.
unfoldable pub punctuation : List ℕ → Token → Punctuation
punctuation text t =
    if (t.class =c cc_comma) || (t.class =c cc_bracket) then char_kind text t else word

module _ (b : CellBuilder) where
  -- `arg_stack` below `n`, the last argument first; the placeholder; the store
  pub record Frame : Type 0 where
    pub stack : List ℕ
    pub ph : Option ℕ
    pub store : b.Store

  -- A failed assertion, a jump to `fail`, or the next token
  pub data Step : Type 0 where
    raise : Step
    fail : Frame → Step
    next : Frame → Step

  unfoldable pub push_arg : List ℕ → ℕ → Frame → Step
  push_arg seg c f =
      if ltb (length f.stack) max_args
      then next (record f { stack = c ∷ f.stack; store = b.set_src c seg f.store })
      else raise

  abbrev pub push_new : List ℕ → Frame → Option (ℕ × b.Store) → Step
  push_new seg f none = raise
  push_new seg f (some (c, st)) = push_arg seg c (record f { store = st })

  abbrev pub push_number : List ℕ → Frame → Option (Option ℕ × b.Store) → Step
  push_number seg f none = raise
  push_number seg f (some (none, st)) = next (record f { store = st })
  push_number seg f (some (some c, st)) = push_arg seg c (record f { store = st })

  -- Arguments are taken from the stack as long as some are missing.
  unfoldable pub bind_stack : (c : ℕ) → List ℕ → b.Store → List ℕ × b.Store
  bind_stack c [] st = ([], st)
  bind_stack c (a ∷ below) st = elim (b.missing st c == 0) [
    | true ↦ (a ∷ below, st)
    | false ↦ bind_stack c below (b.arg c a st)
  ]

  -- And then from the placeholder, one for each of the `k` that are missing.
  unfoldable pub bind_ph : (k c ph : ℕ) → b.Store → ℕ × b.Store
  bind_ph zero c ph st = (ph, st)
  bind_ph (suc k) c ph st =
      let (ph', a, st') = b.expand_deps ph st in bind_ph k c ph' (b.arg c a st')

  unfoldable pub bind_args : ℕ → Frame → Frame
  unfolding bind_stack bind_ph
  bind_args c f =
      let (stack, st) = bind_stack c f.stack f.store in
      elim f.ph [
        | none ↦ record { stack = stack; ph = none; store = st }
        | some ph ↦
            let (ph', st') = bind_ph (b.missing st c) c ph st in
            record { stack = stack; ph = some ph'; store = st' }
      ]

  abbrev pub and_then : Step → (Frame → Step) → Step
  and_then raise g = raise
  and_then (fail f) g = fail f
  and_then (next f) g = g f

  abbrev pub push_all : List ℕ → List ℕ → Frame → Step
  push_all seg [] f = next f
  push_all seg (c ∷ cs) f = and_then (push_arg seg c f) (push_all seg cs)

  abbrev pub drop_ph : Option ℕ → b.Store → b.Store
  drop_ph none st = st
  drop_ph (some c) st = b.drop_cell c st

  -- A word that was found: its arguments, and what it puts on the stack
  unfoldable pub word_found : List ℕ → ℕ → Frame → Step
  unfolding bind_args push_arg
  word_found seg c f =
      let f' = if b.is_value f.store c then f else bind_args c f in
      if b.is_placeholder f'.store c
      then next (record f' { ph = some c; store = b.set_src c seg (drop_ph f'.ph f'.store) })
      else and_then (push_arg seg c f')
          (push_all seg (if b.is_value f.store c then [] else b.outs f'.store c))

  abbrev pub word_looked_up : List ℕ → Frame → Option (Option ℕ × b.Store) → Step
  word_looked_up seg f none = raise
  word_looked_up seg f (some (none, st)) = fail (record f { store = st })
  word_looked_up seg f (some (some c, st)) = word_found seg c (record f { store = st })

  unfoldable pub parse_name : List ℕ → Frame → Step
  unfolding word_found push_arg
  parse_name seg f = elim (is_uppercase (get_or seg 0 0)) [
    | true ↦ push_new seg f (b.string_symbol seg f.store)
    | false ↦ word_looked_up seg f (b.parse_word seg (length f.stack) f.store)
  ]

  -- The token of a word, by its class
  unfoldable pub parse_token : List ℕ → Token → Frame → Step
  unfolding parse_name push_arg
  parse_token text t f =
      let seg = tok_seg text t in
      elim t.class [
        | cc_numeric ↦ push_new seg f (b.int_val seg f.store)
        | cc_float ↦ push_number seg f (b.float_val seg f.store)
        | cc_string ↦
            push_new seg f (b.make_unescaped_string (drop 1 seg) (less_two (length seg)) f.store)
        | cc_symbol ↦ parse_name seg f
        | cc_alpha ↦ parse_name seg f
        | cc_var ↦ parse_name seg f
        | _ ↦ next f
      ]

  -- The list, the tokens left and the store; no list is a null pointer.
  pub record Parsed : Type 0 where
    pub list : Option ℕ
    pub rest : List Token
    pub store : b.Store

  -- `array_to_list`: the last argument first
  abbrev pub array_to_list : List ℕ → List Token → b.Store → Run Parsed
  array_to_list cs rest st = elim (b.make_list cs st) [
    | none ↦ thrown
    | some (c, st') ↦ done (record { list = some c; rest = rest; store = st' })
  ]

  -- The placeholder becomes the first argument.
  unfoldable pub finish : Frame → List Token → Run Parsed
  finish f rest = elim f.ph [
    | none ↦ array_to_list f.stack rest f.store
    | some c ↦
        if ltb (length f.stack) max_args
        then array_to_list (f.stack ++ (c ∷ [])) rest f.store
        else thrown
  ]

  abbrev pub drop_all : List ℕ → b.Store → b.Store
  drop_all [] st = st
  drop_all (c ∷ cs) st = drop_all cs (b.drop_cell c st)

  unfoldable pub give_up : Frame → List Token → Run Parsed
  give_up f rest = done (record {
    list = none;
    rest = rest;
    store = drop_ph f.ph (drop_all (reverse f.stack) f.store);
  })
