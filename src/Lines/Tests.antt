-- ===== src/Lines/Tests.antt =====
-- The right side of a definition over three lines, the second a continuation.
use poprc.Prelude.{ℕ, ◌≡◌, refl, List, [], ◌∷◌, some, false}
use poprc.Token.Class.{cc_alpha}
use poprc.Token.Lex.{Token}
use poprc.Lines.{parse_rhs_expr}
use poprc.Lines.Cut.{IsAnswer, parse_rhs_expr-IsAnswer}

abbrev word_at : (location line : ℕ) → Token
word_at p l = record { location = p; length = 1; line = l; class = cc_alpha; hide = false }

-- "  a b", "    c", "  d", "e"
abbrev four_lines : List Token
four_lines = word_at 2 0 ∷ word_at 4 0 ∷ word_at 10 6 ∷ word_at 14 12 ∷ word_at 16 16 ∷ []

cut :
    parse_rhs_expr four_lines
    ≡ some (record {
      res = some ((word_at 2 0 ∷ word_at 4 0 ∷ word_at 10 6 ∷ []) ∷ (word_at 14 12 ∷ []) ∷ []);
      left_over = word_at 16 16 ∷ [];
    })
unfolding parse_rhs_expr
cut = refl

parse_rhs_expr-IsAnswer_example : IsAnswer four_lines (parse_rhs_expr four_lines)
parse_rhs_expr-IsAnswer_example = parse_rhs_expr-IsAnswer four_lines
