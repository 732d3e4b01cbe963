-- ===== src/Parse/Expr/Loop.antt =====
-- The loops of `parse_subexpr` of parse/parse.c: over the tokens, and over the expressions of a quote.
use poprc.Prelude.{ℕ, zero, suc, true, false, List, [], ◌∷◌, none, some, ltb}
use poprc.Token.Class.{Run, done, thrown, out_of_fuel}
use poprc.Token.Lex.{Token}
use poprc.Parse.Words.{tok_seg}
use poprc.Parse.Expr.{
  CellBuilder, max_parse_depth, opening, closing, comma, paren, word, char_kind, punctuation, Frame,
  raise, fail, next, push_arg, parse_token, Parsed, finish, give_up,
}

-- Where the function stands: before a token, or before an expression of the quote whose bracket is
-- the given token.
pub data Mode : Type 0 where
  tokens : Mode
  quote : Token → Mode

module _ (b : CellBuilder) (text : List ℕ) where
  abbrev pub empty_frame : b.Store → Frame b
  empty_frame st = record { stack = []; ph = none; store = st }

  -- At the end of the tokens a bracket may be missing.
  abbrev pub at_end : (depth : ℕ) → Frame b → Run (Parsed b)
  at_end zero f = finish b f []
  at_end (suc depth) f = give_up b f []

  -- A closing bracket or a comma ends the expression, and is left.
  abbrev pub at_close : (depth : ℕ) → Frame b → Token → List Token → Run (Parsed b)
  at_close zero f t ts = give_up b f ts
  at_close (suc depth) f t ts = finish b f (t ∷ ts)

  unfoldable pub subexpr_loop : ℕ → Mode → (depth : ℕ) → List Token → Frame b → Run (Parsed b)
  unfolding parse_token punctuation
  subexpr_loop zero mode depth toks f = out_of_fuel
  subexpr_loop (suc k) tokens depth [] f = at_end depth f
  subexpr_loop (suc k) tokens depth (t ∷ ts) f = elim (punctuation text t) [
    | word ↦ elim (parse_token b text t f) [
      | raise ↦ thrown
      | fail f' ↦ give_up b f' ts
      | next f' ↦ subexpr_loop k tokens depth ts f'
    ]
    | comma ↦ at_close depth f t ts
    | closing ↦ at_close depth f t ts
    | paren ↦ give_up b f ts
    | opening ↦ subexpr_loop k (quote t) depth ts f
  ]
  subexpr_loop (suc k) (quote t) depth toks f = elim (ltb (suc depth) max_parse_depth) [
    | false ↦ thrown
    | true ↦ elim (subexpr_loop k tokens (suc depth) toks (empty_frame f.store)) [
      | thrown ↦ thrown
      | out_of_fuel ↦ out_of_fuel
      | done p ↦ elim p.list [
        | none ↦ give_up b (record f { store = p.store }) p.rest
        | some c ↦ elim p.rest [
          | [] ↦ thrown
          | u ∷ us ↦ elim (push_arg b (tok_seg text t) c (record f { store = p.store })) [
            | raise ↦ thrown
            | fail f' ↦ give_up b f' us
            | next f' ↦ elim (char_kind text u) [
              | closing ↦ subexpr_loop k tokens depth us f'
              | comma ↦ elim us [
                | [] ↦ give_up b f' []
                | v ∷ vs ↦ subexpr_loop k (quote t) depth (v ∷ vs) f'
              ]
              | _ ↦ give_up b f' us
            ]
          ]
        ]
      ]
    ]
  ]

  unfoldable pub parse_subexpr : ℕ → (depth : ℕ) → List Token → b.Store → Run (Parsed b)
  unfolding subexpr_loop
  parse_subexpr k depth toks st = elim (ltb depth max_parse_depth) [
    | false ↦ thrown
    | true ↦ subexpr_loop k tokens depth toks (empty_frame st)
  ]

  unfoldable pub parse_expr : ℕ → List Token → b.Store → Run (Parsed b)
  unfolding parse_subexpr
  parse_expr k toks st = parse_subexpr k 0 toks st
