-- ===== src/Token/Tests.antt =====
-- Runs of the tokenizer on the text of the source's own test and on the comments that go wrong.
use Prim.Native.Char.{code}
use Prim.Native.String.{String}
use poprc.Prelude.{ℕ, ◌≡◌, refl, false, List, [], ◌∷◌, ◌==◌}
use poprc.Token.Class.{Run, done, cc_alpha, cc_string, char_class}
use poprc.Token.Comment.{skip_comment}
use poprc.Token.Scan.{tok}
use poprc.Token.Lex.{Token, lex}
use poprc.Token.Flaws.{IsPlain}

abbrev codes : String → List ℕ
codes String.[] = []
codes (String.◌∷◌ c s) = code c ∷ codes s

abbrev extents : List Token → List (ℕ × ℕ × ℕ)
extents [] = []
extents (t ∷ ts) = (t.location, t.length, t.line) ∷ extents ts

abbrev extents_of : Run (List Token) → List (ℕ × ℕ × ℕ)
extents_of (done ts) = extents ts
extents_of _ = []

abbrev source_text : List ℕ
source_text = codes "testing\n[1 2+ 3]\n_ignore this_ 4\nDone"

-- testing, the five tokens between brackets, 4 and Done
lex_source :
    extents_of (lex source_text)
    ≡ (0, 7, 0)
      ∷ (8, 1, 8)
      ∷ (9, 1, 8)
      ∷ (11, 1, 8)
      ∷ (12, 1, 8)
      ∷ (14, 1, 8)
      ∷ (15, 1, 8)
      ∷ (31, 1, 17)
      ∷ (33, 4, 33)
      ∷ []
unfolding lex tok char_class skip_comment
lex_source = refl

numbers :
    extents_of (lex (codes "-12 0x1F 1.5e-3 a.b x:"))
    ≡ (0, 3, 0) ∷ (4, 4, 0) ∷ (9, 6, 0) ∷ (16, 3, 0) ∷ (20, 1, 0) ∷ (21, 1, 0) ∷ []
unfolding lex tok char_class skip_comment
numbers = refl

-- A comment of one letter is not closed by its second mark.
one_letter : skip_comment 0 (codes "_a_ b c") ≡ done 7
unfolding skip_comment char_class
one_letter = refl

two_letters : skip_comment 0 (codes "_ab_ b c") ≡ done 4
unfolding skip_comment char_class
two_letters = refl

past_end : skip_comment 0 (codes "_a") ≡ done 3
unfolding skip_comment char_class
past_end = refl

-- A string literal that spans two lines.
abbrev two_line_text : List ℕ
two_line_text = 34 ∷ b'a' ∷ 10 ∷ 34 ∷ []

abbrev two_line_literal : Token
two_line_literal = record { location = 0; length = 4; line = 3; class = cc_string; hide = false }

abbrev letter : (c : ℕ) → char_class c ≡ done cc_alpha → (c == 0) ≡ false → IsPlain c
letter c h n = record { class = cc_alpha; classed = h; not_nul = n; not_comment = refl }
