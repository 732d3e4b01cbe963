-- ===== src/Parse/Expr/Tests.antt =====
-- The theorems on the expressions of parse/parse.c at a concrete instance.
use native.Mathlib.Omega.{arith}
use poprc.Prelude.{
  ℕ, suc, ◌-◌, ◌≡◌, ◌⊎◌, refl, false, List, [], ◌∷◌, Option, none, some, ◌==◌, if◌then◌else◌,
}
use poprc.Token.Class.{Run, done, thrown, out_of_fuel, cc_numeric, cc_bracket, cc_comma, cc_symbol}
use poprc.Token.Lex.{Token}
use poprc.Parse.Expr.{
  CellBuilder, Parsed, punctuation, parse_token, parse_name, word_found, bind_args, bind_stack,
  bind_ph, push_arg, finish, give_up,
}
use poprc.Parse.Expr.Loop.{subexpr_loop, parse_subexpr, parse_expr}
use poprc.Parse.Expr.Grammar.{Expression}
use poprc.Parse.Expr.Matching.{parse_expr-Expression}

-- The store counts the cells, and has the arguments that each misses. Every word is a function of
-- two arguments.
abbrev counting : CellBuilder
counting = record {
  Store = ℕ × (ℕ → ℕ);
  int_val = λ s (n, missing). some (n, (suc n, missing));
  float_val = λ s (n, missing). some (some n, (suc n, missing));
  make_unescaped_string = λ s k (n, missing). some (n, (suc n, missing));
  string_symbol = λ s (n, missing). some (n, (suc n, missing));
  parse_word = λ s k (n, missing). some (some n, (suc n, λ c. if c == n then 2 else missing c));
  is_value = λ (n, missing) c. false;
  is_placeholder = λ st c. false;
  missing = λ (n, missing) c. missing c;
  arg = λ c a (n, missing). (n, λ d. if d == c then missing d - 1 else missing d);
  expand_deps = λ ph (n, missing). (ph, n, (suc n, missing));
  outs = λ st c. [];
  set_src = λ c s st. st;
  drop_cell = λ c st. st;
  make_list = λ cs (n, missing). some (n, (suc n, missing));
}

-- The text `[1,2]3+`
abbrev text : List ℕ
text = b'[' ∷ b'1' ∷ b',' ∷ b'2' ∷ b']' ∷ b'3' ∷ b'+' ∷ []

abbrev token_at : ℕ → Token
token_at a = record { location = a; length = 1; line = 0; class = cc_bracket; hide = false }

abbrev toks : List Token
toks =
    token_at 0
    ∷ record (token_at 1) { class = cc_numeric }
    ∷ record (token_at 2) { class = cc_comma }
    ∷ record (token_at 3) { class = cc_numeric }
    ∷ token_at 4
    ∷ record (token_at 5) { class = cc_numeric }
    ∷ record (token_at 6) { class = cc_symbol }
    ∷ []

abbrev result : Run (Parsed counting) → Option (Option ℕ × List Token)
result (done p) = some (p.list, p.rest)
result thrown = none
result out_of_fuel = none

quotes_parsed : result (parse_expr counting text 15 toks (0, λ c. 0)) ≡ some (some 6, [])
unfolding parse_expr parse_subexpr subexpr_loop punctuation parse_token parse_name word_found
    bind_args bind_stack bind_ph push_arg finish give_up
quotes_parsed = refl

unclosed_quote :
    result (parse_expr counting text 15 (token_at 0 ∷ token_at 1 ∷ []) (0, λ c. 0))
    ≡ some (none, [])
unfolding parse_expr parse_subexpr subexpr_loop punctuation parse_token parse_name word_found
    bind_args bind_stack bind_ph push_arg finish give_up
unclosed_quote = refl

parse_expr-Expression_example :
    (parse_expr counting text 15 toks (0, λ c. 0) ≡ thrown)
    ⊎ ((p : Parsed counting) × (parse_expr counting text 15 toks (0, λ c. 0) ≡ done p)
        × ((p.list ≡ none) ⊎ ((p.rest ≡ []) × Expression text toks)))
parse_expr-Expression_example =
    parse_expr-Expression counting text 15 toks (0, λ c. 0) (omega arith)
