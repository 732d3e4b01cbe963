-- ===== src/Token/Comment.antt =====
-- `skip_comment` and `string_literal_end` of parse/tok.c. The list is the text from `p` to its end.
use poprc.Prelude.{ℕ, ◌+◌, ◌-◌, true, false, ◌||◌, List, [], ◌∷◌, ltb, leb, ◌==◌, if◌then◌else◌}
use poprc.Token.Class.{Run, done, thrown, CharClass, cc_none, cc_comment, char_class, ◌=c◌}

-- Where the loop stands: behind `length` comment characters, or inside at a character of class
-- `cur`. `level` counts the nested comments.
pub data Mode : Type 0 where
  marks : (length level : ℕ) (before : CharClass) → Mode
  inside : (level : ℕ) (cur : CharClass) → Mode

-- What the character behind the comment characters decides.
pub data Verdict : Type 0 where
  another line lone close : Verdict
  go_on : ℕ → Verdict

unfoldable pub after_marks : (length level : ℕ) (before after : CharClass) (c : ℕ) → Verdict
after_marks length level before after c =
    if after =c cc_comment
    then another
    else if before =c cc_none
    then (if after =c cc_none
        then (if level == 0 then (if ltb 1 length then line else lone) else go_on level)
        else go_on (level + 1))
    else if after =c cc_none
    then (if c == 0 || leb (level - 1) 0 then close else go_on (level - 1))
    else go_on level

-- `while(ptr < e && *ptr && *ptr != '\n') ptr++`
unfoldable pub line_end : ℕ → List ℕ → ℕ
line_end p [] = p
line_end p (c ∷ r) = if c == 0 || c == 10 then p else line_end (p + 1) r

unfoldable pub skip : (s : ℕ) → Mode → ℕ → List ℕ → Run ℕ
unfolding after_marks line_end
skip s (marks length level before) p [] = done p
skip s (marks length level before) p (c ∷ r) = elim (char_class c) [
  | done after ↦ elim (after_marks length level before after c) [
    | another ↦ skip s (marks (length + 1) level before) (p + 1) r
    | line ↦ done (line_end p (c ∷ r))
    | lone ↦ done s
    | close ↦ done p
    | go_on l ↦ skip s (inside l after) (p + 1) r
  ]
  | _ ↦ thrown
]
skip s (inside level cur) p [] = done (p + 1)
skip s (inside level cur) p (x ∷ []) = done (p + 1)
skip s (inside level cur) p (x ∷ (c ∷ r)) = if c == 0 then done (p + 1) else elim (char_class c) [
  | done next ↦ elim (next =c cc_comment) [
    | true ↦ skip s (marks 1 level cur) (p + 1 + 1) r
    | false ↦ skip s (inside level next) (p + 1) (c ∷ r)
  ]
  | _ ↦ thrown
]

-- The text starts with the comment character.
unfoldable pub skip_comment : ℕ → List ℕ → Run ℕ
unfolding skip
skip_comment s [] = done s
skip_comment s (c ∷ r) = skip s (marks 1 0 cc_none) (s + 1) r

-- The rest of a string literal; the NUL at the end of the text is not a quote.
unfoldable pub literal_rest : ℕ → List ℕ → Run ℕ
literal_rest p [] = thrown
literal_rest p (c ∷ []) = if c == 34 then done (p + 1) else thrown
literal_rest p (c ∷ (x ∷ r)) =
    if c == 34
    then done (p + 1)
    else elim (c == 92) [ true ↦ literal_rest (p + 1 + 1) r | false ↦ literal_rest (p + 1) (x ∷ r) ]

unfoldable pub string_literal_end : ℕ → List ℕ → Run ℕ
unfolding literal_rest
string_literal_end s [] = thrown
string_literal_end s (q ∷ []) = thrown
string_literal_end s (q ∷ (c ∷ r)) = if q == 34 then literal_rest (s + 1) (c ∷ r) else thrown
