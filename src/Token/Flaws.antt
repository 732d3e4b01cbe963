-- ===== src/Token/Flaws.antt =====
-- `skip_comment` of parse/tok.c and `tok_indent` of parse/lex.c on special texts.
use poprc.Prelude.{
  ℕ, ◌+◌, ◌-◌, ◌≤◌, ◌<◌, ◌≡◌, refl, ap, ◌↔◌, inl, inr, false, List, [], ◌∷◌, none, arith, ◌==◌, leb,
  get_or, length, Bool-cases,
}
use poprc.Token.Class.{done, CharClass, cc_none, cc_comment, char_class, ◌=c◌}
use poprc.Token.Comment.{inside, after_marks, skip, skip_comment}
use poprc.Token.Lex.{Token, tok_indent}
use poprc.Token.Lex.Progress.{IsPlaced}

-- A byte of a text that has no comment character.
pub record IsPlain (c : ℕ) : Type 0 where
  pub class : CharClass
  pub classed : char_class c ≡ done class
  pub not_nul : (c == 0) ≡ false
  pub not_comment : (class =c cc_comment) ≡ false

pub data ArePlain : List ℕ → Type 0 where
  plain_nil : ArePlain []
  plain_cons : (c : ℕ) (r : List ℕ) → IsPlain c → ArePlain r → ArePlain (c ∷ r)

-- Behind `x` no comment character follows, so the comment goes on to the end.
skip-inside_plain :
    (s level p x : ℕ) (cur : CharClass) (r : List ℕ)
    → ArePlain r
    → skip s (inside level cur) p (x ∷ r) ≡ done (p + length r + 1)
unfolding skip
skip-inside_plain s level p x cur [] plain_nil = ground arith
skip-inside_plain s level p x cur (c ∷ r) (plain_cons _ _ h t) =
    rw (h.not_nul, h.classed, h.not_comment, skip-inside_plain s level (p + 1) c h.class r t)
      (ap done (omega arith))

-- A comment character and one more character of a word: the comment takes its own second comment
-- character for a part of itself, and with it all the text up to the next one, here to the end.
pub skip_comment_one_letter :
    (s c : ℕ) (r : List ℕ) (w : IsPlain c)
    → (w.class =c cc_none) ≡ false
    → ArePlain r
    → skip_comment s (b'_' ∷ (c ∷ (b'_' ∷ r))) ≡ done (s + 3 + length r)
unfolding skip_comment skip after_marks
skip_comment_one_letter s c r w h t =
    ground (arith, w.classed, w.not_comment, h, skip-inside_plain s 1 (s + 1 + 1) b'_' w.class r t)

-- At the end of a text, a comment character and one character of a word: the place returned is 3
-- behind the start, one past the end.
pub skip_comment_past_end :
    (s c : ℕ) (w : IsPlain c)
    → (w.class =c cc_none) ≡ false
    → skip_comment s (b'_' ∷ (c ∷ [])) ≡ done (s + 3)
unfolding skip_comment skip after_marks
skip_comment_past_end s c w h = ground (arith, w.classed, w.not_comment, h)

-- For a token that stands within the text and knows the line that it ends on, the assertion of
-- `tok_indent` fails exactly if a newline stands inside the token.
pub tok_indent-newline :
    (text : List ℕ) (t : Token)
    → IsPlaced text t
    → (tok_indent t ≡ none)
      ↔ ((i : ℕ) × (t.location ≤ i) × (i < t.location + t.length) × (get_or text i 0 ≡ 10))
unfolding tok_indent
tok_indent-newline text t w = (
  λ h.
      let behind : t.location < t.line = ground arith in
      elim w.lined.starts [
        | inl first ↦ absurd (omega arith)
        | inr found ↦ (t.line - 1, omega arith, omega (arith, w.lined.above), found)
      ],
  λ (i, lo, hi, found). elim (Bool-cases (leb t.line t.location)) [
    | inl e ↦ absurd (w.lined.unbroken i (ground arith) hi found)
    | inr e ↦ rw e refl
  ],
)
