-- ===== src/Lines.antt =====
-- `parse_rhs_expr` of parse/parse.c: the right side of a definition, cut into expressions by the
-- indentation of its lines. The expressions are chains of tokens that the function cuts out of one.
pub mod Cut
mod Tests
use poprc.Prelude.{ℕ, ◌==◌, ltb, if◌then◌else◌, List, [], ◌∷◌, Option, none, some}
use poprc.Token.Lex.{Token, tok_indent}

-- The tokens left of the expression at hand, the expressions after it, and the rest.
pub record Pieces : Type 0 where
  pub current : List Token
  pub others : List (List Token)
  pub rest : List Token

abbrev pub join : Token → Option Pieces → Option Pieces
join t none = none
join t (some p) = some (record p { current = t ∷ p.current })

abbrev pub start : Token → Option Pieces → Option Pieces
start t none = none
start t (some p) = some (record p { current = []; others = (t ∷ p.current) ∷ p.others })

-- From the token behind one on `line` on: a token on that line is passed over, the first one of a
-- line is looked at by its indentation. `none` is the failed assertion of `tok_indent`.
unfoldable pub rhs_loop : (left_indent line : ℕ) → List Token → Option Pieces
unfolding tok_indent
rhs_loop left line [] = some (record { current = []; others = []; rest = [] })
rhs_loop left line (t ∷ ts) =
    let more = rhs_loop left t.line ts in
    if t.line == line then join t more else elim (tok_indent t) [
      | none ↦ none
      | some indent ↦
          if ltb indent left
          then some (record { current = []; others = []; rest = t ∷ ts })
          else if indent == left
          then start t more
          else join t more
    ]

-- What is parsed, if the function returns true, and the tokens that are left.
pub record Parsed : Type 0 where
  pub res : Option (List (List Token))
  pub left_over : List Token

unfoldable pub parse_rhs_expr : List Token → Option Parsed
unfolding rhs_loop tok_indent
parse_rhs_expr [] = some (record { res = none; left_over = [] })
parse_rhs_expr (t ∷ ts) = elim (tok_indent t) [
  | none ↦ none
  | some left ↦
      if left == 0
      then some (record { res = none; left_over = t ∷ ts })
      else elim (rhs_loop left t.line ts) [
        | none ↦ none
        | some p ↦ some (record { res = some ((t ∷ p.current) ∷ p.others); left_over = p.rest })
      ]
]
