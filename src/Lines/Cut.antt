-- ===== src/Lines/Cut.antt =====
-- The expressions that `parse_rhs_expr` of parse/parse.c cuts the tokens into.
use poprc.Prelude.{
  ℕ, ◌==◌, ltb, if◌then◌else◌, List, [], ◌∷◌, ◌++◌, Option, none, some, ◌≡◌, refl, ap, ◌∙◌, true,
  false, ◌<◌, ◌≢◌, arith, ◌⊎◌, inl, inr,
}
use mathlib.Core.List.{append_assoc, cons≢nil}
use poprc.Token.Lex.{Token, tok_indent}
use poprc.Lines.{Pieces, join, start, rhs_loop, Parsed, parse_rhs_expr}

abbrev pub concat : List (List Token) → List Token
concat [] = []
concat (p ∷ ps) = p ++ concat ps

-- Tokens that go on an expression: on the line of the token before, or the first of a deeper line.
abbrev pub GoesOn : (left line : ℕ) → List Token → Type 0
GoesOn left line [] = Unit
GoesOn left line (t ∷ ts) =
    ((t.line ≡ line) ⊎ ((i : ℕ) × (tok_indent t ≡ some i) × (left < i))) × GoesOn left t.line ts

-- Expressions whose first tokens stand at the indentation `left`.
abbrev pub AreExpressions : (left : ℕ) → List (List Token) → Type 0
AreExpressions left [] = Unit
AreExpressions left ([] ∷ ps) = ⊥
AreExpressions left ((t ∷ ts) ∷ ps) =
    (tok_indent t ≡ some left) × GoesOn left t.line ts × AreExpressions left ps

-- What is left starts with a token that stands less deep.
abbrev pub StartsOutside : (left : ℕ) → List Token → Type 0
StartsOutside left [] = Unit
StartsOutside left (t ∷ ts) = (i : ℕ) × (tok_indent t ≡ some i) × (i < left)

-- A token that stands before its own line: the assertion of `tok_indent` fails for it.
abbrev pub HasMisplaced : List Token → Type 0
HasMisplaced [] = ⊥
HasMisplaced (t ∷ ts) = (tok_indent t ≡ none) ⊎ HasMisplaced ts

abbrev pub IsCut : (left line : ℕ) → List Token → Option Pieces → Type 0
IsCut left line ts none = HasMisplaced ts
IsCut left line ts (some p) =
    (p.current ++ (concat p.others ++ p.rest) ≡ ts)
    × GoesOn left line p.current
    × AreExpressions left p.others
    × StartsOutside left p.rest

join-IsCut :
    (left line : ℕ) (t : Token) (ts : List Token) (o : Option Pieces)
    → (t.line ≡ line) ⊎ ((i : ℕ) × (tok_indent t ≡ some i) × (left < i))
    → IsCut left t.line ts o
    → IsCut left line (t ∷ ts) (join t o)
join-IsCut left line t ts none h c = inr c
join-IsCut left line t ts (some p) h c = (ap (λ r. t ∷ r) c.0, (h, c.1), c.2, c.3)

start-IsCut :
    (left line : ℕ) (t : Token) (ts : List Token) (o : Option Pieces)
    → tok_indent t ≡ some left
    → IsCut left t.line ts o
    → IsCut left line (t ∷ ts) (start t o)
start-IsCut left line t ts none h c = inr c
start-IsCut left line t ts (some p) h c = (
  ap (λ r. t ∷ r) (append_assoc p.current (concat p.others) p.rest ∙ c.0),
  tt,
  (h, c.1, c.2),
  c.3,
)

-- The first token of a line, by its indentation
indent-IsCut :
    (left line : ℕ) (t : Token) (ts : List Token) (more : Option Pieces) (i : ℕ)
    → tok_indent t ≡ some i
    → IsCut left t.line ts more
    → IsCut left line (t ∷ ts) (
        if ltb i left
        then some (record { current = []; others = []; rest = t ∷ ts })
        else if i == left
        then start t more
        else join t more)
indent-IsCut left line t ts more i q c =
    elim (ltb i left)
        as (λ b.
          ltb i left ≡ b
          → IsCut left line (t ∷ ts) (
              if b
              then some (record { current = []; others = []; rest = t ∷ ts })
              else if i == left
              then start t more
              else join t more)) [
                | true ↦ λ l. (refl, tt, tt, (i, q, ground arith))
                | false ↦ λ l.
                    elim (i == left)
                        as (λ b.
                          (i == left) ≡ b
                          → IsCut left line (t ∷ ts) (if b then start t more else join t more)) [
                            | true ↦
                                λ e. start-IsCut left line t ts more (q ∙ ap some (ground arith)) c
                            | false ↦
                                λ e. join-IsCut left line t ts more (inr (i, q, ground arith)) c
                          ]
                      refl
              ]
      refl

rhs_loop-IsCut : (left line : ℕ) (ts : List Token) → IsCut left line ts (rhs_loop left line ts)
unfolding rhs_loop
rhs_loop-IsCut left line [] = (refl, tt, tt, tt)
rhs_loop-IsCut left line (t ∷ ts) =
    let more = rhs_loop left t.line ts in
    let ih = rhs_loop-IsCut left t.line ts in
    elim (t.line == line)
        as (λ b.
          (t.line == line) ≡ b
          → IsCut left line (t ∷ ts) (
              if b then join t more else elim (tok_indent t) [
                | none ↦ none
                | some indent ↦
                    if ltb indent left
                    then some (record { current = []; others = []; rest = t ∷ ts })
                    else if indent == left
                    then start t more
                    else join t more
              ])) [
                | true ↦ λ e. join-IsCut left line t ts more (inl (ground arith)) ih
                | false ↦ λ e.
                    elim (tok_indent t)
                        as (λ o.
                          tok_indent t ≡ o
                          → IsCut left line (t ∷ ts) (elim o [
                            | none ↦ none
                            | some indent ↦
                                if ltb indent left
                                then some (record { current = []; others = []; rest = t ∷ ts })
                                else if indent == left
                                then start t more
                                else join t more
                          ])) [
                            | none ↦ λ q. inl q
                            | some i ↦ λ q. indent-IsCut left line t ts more i q ih
                          ]
                      refl
              ]
      refl

cons_not_nil : (p : List Token) (ps : List (List Token)) → (p ∷ ps) ≢ []
cons_not_nil p ps h = cons≢nil h

-- What the function may answer for the tokens `ts`: false, with all of them left; or true, with
-- expressions whose first tokens stand at one indentation, not at 0, and whose other lines are deeper.
-- They and what is left are the tokens in their order, and what is left starts less deep.
abbrev pub Answers : List Token → Option (List (List Token)) → List Token → Type 0
Answers ts none rest = rest ≡ ts
Answers ts (some ps) rest =
    (left : ℕ) × (0 < left)
    × (ps ≢ [])
    × (concat ps ++ rest ≡ ts)
    × AreExpressions left ps
    × StartsOutside left rest

abbrev pub IsAnswer : List Token → Option Parsed → Type 0
IsAnswer ts none = HasMisplaced ts
IsAnswer ts (some p) = Answers ts p.res p.left_over

-- `parse_rhs_expr` answers so; its assertion fails only if a token stands before its own line.
pub parse_rhs_expr-IsAnswer : (ts : List Token) → IsAnswer ts (parse_rhs_expr ts)
unfolding parse_rhs_expr
parse_rhs_expr-IsAnswer [] = refl
parse_rhs_expr-IsAnswer (t ∷ ts) =
    elim (tok_indent t)
        as (λ o.
          tok_indent t ≡ o
          → IsAnswer (t ∷ ts) (elim o [
            | none ↦ none
            | some left ↦
                if left == 0
                then some (record { res = none; left_over = t ∷ ts })
                else elim (rhs_loop left t.line ts) [
                  | none ↦ none
                  | some p ↦
                      some (record { res = some ((t ∷ p.current) ∷ p.others); left_over = p.rest })
                ]
          ])) [
            | none ↦ λ q. inl q
            | some left ↦ λ q.
                elim (left == 0)
                    as (λ b.
                      (left == 0) ≡ b
                      → IsAnswer (t ∷ ts) (
                          if b
                          then some (record { res = none; left_over = t ∷ ts })
                          else elim (rhs_loop left t.line ts) [
                            | none ↦ none
                            | some p ↦ some (record {
                              res = some ((t ∷ p.current) ∷ p.others);
                              left_over = p.rest;
                            })
                          ])) [
                            | true ↦ λ e. refl
                            | false ↦ λ e.
                                elim (rhs_loop left t.line ts)
                                    as (λ o.
                                      IsCut left t.line ts o
                                      → IsAnswer (t ∷ ts) (elim o [
                                        | none ↦ none
                                        | some p ↦ some (record {
                                          res = some ((t ∷ p.current) ∷ p.others);
                                          left_over = p.rest;
                                        })
                                      ])) [
                                        | none ↦ λ c. inr c
                                        | some p ↦ λ c. (
                                          left,
                                          ground arith,
                                          cons_not_nil (t ∷ p.current) p.others,
                                          ap (λ r. t ∷ r)
                                              (append_assoc p.current (concat p.others) p.rest
                                                ∙ c.0),
                                          (q, c.1, c.2),
                                          c.3,
                                        )
                                      ]
                                  (rhs_loop-IsCut left t.line ts)
                          ]
                  refl
          ]
      refl
