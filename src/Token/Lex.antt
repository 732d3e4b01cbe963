-- ===== src/Token/Lex.antt =====
-- `update_line` of parse/tok.c, and `lex` and `tok_indent` of parse/lex.c. The list of tokens stands
-- for the cells linked by `tok_list.next`.
pub mod Progress
use poprc.Prelude.{
  ℕ, zero, suc, ◌+◌, ◌-◌, Bool, false, Option, none, some, List, [], ◌∷◌, leb, ◌==◌, if◌then◌else◌,
  get_or, length, ◌||◌,
}
use mathlib.Core.List.{reverse}
use poprc.Token.Class.{Run, done, thrown, out_of_fuel, CharClass}
use poprc.Token.Scan.{Attributes, Tok, null, token, tok}

-- `tok_list_t`, with `char_class` of the cell
pub record Token : Type 0 where
  pub location : ℕ
  pub length : ℕ
  pub line : ℕ
  pub class : CharClass
  pub hide : Bool

-- The line after the last newline of the `k` characters from `start` on, looked for from the end.
unfoldable pub update_line : List ℕ → (start k line : ℕ) → ℕ
update_line text start zero line = line
update_line text start (suc k) line =
    if get_or text (start + k) 0 == 10 then start + k + 1 else update_line text start k line

-- The attributes found before the next token belong to the last one; before any token they are lost.
abbrev pub hide_last : Bool → List Token → List Token
hide_last h [] = []
hide_last h (t ∷ ts) = record t { hide = h } ∷ ts

abbrev pub last_hide : List Token → Bool
last_hide [] = false
last_hide (t ∷ ts) = t.hide

-- The loop of `lex`; `toks` holds the tokens made so far, the last one first.
unfoldable pub lex_loop : ℕ → List ℕ → (s line : ℕ) → List Token → Run (List Token)
unfolding update_line
lex_loop zero text s line toks = out_of_fuel
lex_loop (suc k) text s line toks =
    elim (tok (suc (length text)) text s (record { before = last_hide toks; after = false })) [
      | done (null a) ↦ done (hide_last a.before toks)
      | done (token p n cc a) ↦ lex_loop k text (p + n) (update_line text s (p + n - s) line) (
          record {
            location = p;
            length = n;
            line = update_line text s (p + n - s) line;
            class = cc;
            hide = a.after;
          }
          ∷ hide_last a.before toks)
      | thrown ↦ thrown
      | out_of_fuel ↦ out_of_fuel
    ]

unfoldable pub lex : List ℕ → Run (List Token)
unfolding lex_loop
lex text = elim (lex_loop (suc (length text)) text 0 0 []) [
  | done toks ↦ done (reverse toks)
  | thrown ↦ thrown
  | out_of_fuel ↦ out_of_fuel
]

-- `none` is the failed assertion that the token stands on its line.
unfoldable pub tok_indent : Token → Option ℕ
tok_indent t = if leb t.line t.location then some (t.location - t.line) else none
