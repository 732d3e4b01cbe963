-- ===== src/Token/Class.antt =====
-- `char_class` of parse/tok.c, and the result type of the tokenizer's functions.
use poprc.Prelude.{ℕ, Bool, not, ◌&&◌, ◌||◌, leb, ◌==◌, if◌then◌else◌}

-- `thrown` is a failed `assert_throw`. A loop of the model that is given too few rounds is
-- `out_of_fuel`.
pub data Run {ℓ} (A : Type ℓ) : Type ℓ where
  done : A → Run A
  thrown : Run A
  out_of_fuel : Run A

-- `char_class_t`
pub data CharClass : Type 0 where
  cc_none cc_numeric cc_float cc_alpha cc_symbol cc_bracket cc_var cc_comment cc_dot cc_string
        cc_comma :
      CharClass

abbrev in_range : ℕ → ℕ → ℕ → Bool
in_range c lo hi = leb lo c && leb c hi

abbrev pub is_bracket : ℕ → Bool
is_bracket c = c == b'[' || c == b']' || c == b'(' || c == b')' || c == b'{' || c == b'}'

-- `char` is signed: a byte from 128 on is negative, so it passes the assertion `c < 127`.
unfoldable pub char_class : ℕ → Run CharClass
char_class c =
    if c == 127
    then thrown
    else done (
        if not (in_range c b'!' b'~')
        then cc_none
        else if in_range c b'0' b'9'
        then cc_numeric
        else if in_range c b'a' b'z' || in_range c b'A' b'Z'
        then cc_alpha
        else if c == b'?'
        then cc_var
        else if c == b'.'
        then cc_dot
        else if c == b'_'
        then cc_comment
        else if c == 34
        then cc_string
        else if c == b','
        then cc_comma
        else if is_bracket c
        then cc_bracket
        else cc_symbol)

abbrev pub class_code : CharClass → ℕ
class_code cc_none = 0
class_code cc_numeric = 1
class_code cc_float = 2
class_code cc_alpha = 3
class_code cc_symbol = 4
class_code cc_bracket = 5
class_code cc_var = 6
class_code cc_comment = 7
class_code cc_dot = 8
class_code cc_string = 9
class_code cc_comma = 10

infix 50 ◌=c◌
abbrev pub ◌=c◌ : CharClass → CharClass → Bool
a =c b = class_code a == class_code b
