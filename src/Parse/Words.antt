-- ===== src/Parse/Words.antt =====
-- Words by their spelling: `is_num`, `match_param_word`, `is_reserved`, `match`, `match_class`,
-- `is_uppercase` and `scan_attributes` of parse/parse.c.
pub mod Digits
use poprc.Prelude.{
  ℕ, ◌+◌, ◌-◌, Bool, true, false, ◌&&◌, ◌||◌, List, [], ◌∷◌, Option, none, some, leb, ◌==◌,
  if◌then◌else◌, get_or, ◌=t◌, take, drop, length,
}
use poprc.Token.Class.{Run, done, thrown, out_of_fuel, CharClass, cc_numeric, char_class, ◌=c◌}
use poprc.Token.Lex.{Token}

abbrev pub is_numeric : ℕ → Run Bool
is_numeric c = elim (char_class c) [
  | done cc ↦ done (cc =c cc_numeric)
  | thrown ↦ thrown
  | out_of_fuel ↦ out_of_fuel
]

-- Of a string that a NUL ends
unfoldable pub is_num : List ℕ → Run Bool
is_num str = elim (is_numeric (get_or str 0 0)) [
  | done true ↦ done true
  | done false ↦ if get_or str 0 0 == b'-' then is_numeric (get_or str 1 0) else done false
  | thrown ↦ thrown
  | out_of_fuel ↦ out_of_fuel
]

-- What follows a prefix
abbrev pub behind : (pre s : List ℕ) → Option (List ℕ)
behind [] s = some s
behind (p ∷ pre) [] = none
behind (p ∷ pre) (c ∷ s) = if p == c then behind pre s else none

abbrev pub when_true : {A : Type 0} → Run Bool → Run (Option A) → Run (Option A)
when_true (done true) r = r
when_true (done false) r = done none
when_true thrown r = thrown
when_true out_of_fuel r = out_of_fuel

abbrev pub if_numeric : {A : Type 0} → ℕ → Run (Option A) → Run (Option A)
if_numeric c r = when_true (is_numeric c) r

-- The numbers that one or two digits stand for: those of the inputs and of the outputs
abbrev pub param_digits : List ℕ → (inputs outputs : ℕ) → Run (Option (ℕ × ℕ))
param_digits [] i o = done (some (i, o))
param_digits (a ∷ []) i o = if_numeric a (done (some (a - b'0', o)))
param_digits (a ∷ b ∷ []) i o = if_numeric b (if_numeric a (done (some (a - b'0', b - b'0'))))
param_digits (a ∷ b ∷ c ∷ s) i o = done none

-- The numbers to start with, and those that the word says; `done none` returns false.
unfoldable pub match_param_word : (pre seg : List ℕ) → (inputs outputs : ℕ) → Run (Option (ℕ × ℕ))
match_param_word pre seg i o = elim (behind pre seg) [
  | none ↦ done none
  | some s ↦ param_digits s i o
]

abbrev pub tok_seg : List ℕ → Token → List ℕ
tok_seg text t = take t.length (drop t.location text)

abbrev pub word_module : List ℕ
word_module = b'm' ∷ b'o' ∷ b'd' ∷ b'u' ∷ b'l' ∷ b'e' ∷ []

abbrev pub reserved_words : List (List ℕ)
reserved_words = word_module ∷ (b':' ∷ []) ∷ []

abbrev pub any_equal : List ℕ → List (List ℕ) → Bool
any_equal s [] = false
any_equal s (w ∷ ws) = (w =t s) || any_equal s ws

abbrev pub is_reserved : List ℕ → Bool
is_reserved s = any_equal s reserved_words

-- `c` is null at the end of the tokens.
abbrev pub match : List ℕ → List Token → List ℕ → Bool
match text [] str = false
match text (t ∷ ts) str = str =t tok_seg text t

unfoldable pub match_class : List Token → CharClass → (min_length max_length : ℕ) → Bool
match_class [] cc lo hi = false
match_class (t ∷ ts) cc lo hi = (t.class =c cc) && leb lo t.length && leb t.length hi

abbrev pub is_uppercase : ℕ → Bool
is_uppercase c = leb b'A' c && leb c b'Z'

abbrev pub hide_of : List Token → Bool
hide_of [] = false
hide_of (t ∷ ts) = t.hide || hide_of ts

-- The one attribute that there is, in any token of the expressions
unfoldable pub scan_attributes : List (List Token) → Bool
scan_attributes [] = false
scan_attributes (p ∷ ps) = hide_of p || scan_attributes ps
