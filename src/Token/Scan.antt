-- ===== src/Token/Scan.antt =====
-- `tok` of parse/tok.c, and `attribute_parser` of parse/parse.c, which it calls.
use poprc.Prelude.{
  ℕ, zero, suc, ◌+◌, ◌-◌, Bool, true, false, ◌&&◌, ◌||◌, not, Option, none, some, List, [], ◌∷◌,
  ltb, leb, ◌==◌, if◌then◌else◌, get_or, drop,
}
use poprc.Token.Class.{
  Run, done, thrown, out_of_fuel, CharClass, cc_none, cc_numeric, cc_float, cc_alpha, cc_symbol,
  cc_bracket, cc_comment, cc_dot, cc_string, cc_comma, char_class, ◌=c◌,
}
use poprc.Token.Comment.{skip_comment, string_literal_end}

abbrev starts_with_hide : List ℕ → Bool
starts_with_hide (a ∷ (b ∷ (c ∷ (d ∷ (e ∷ (f ∷ r)))))) =
    a == b'{' && b == b'h' && c == b'i' && d == b'd' && e == b'e' && f == b'}'
starts_with_hide _ = false

-- Whether `attribute_parser` finds `{hide}`. `left` is `e - s`, or 0 past `e`; the list is the text
-- from `s` on. The inner loop over blanks does not look at `e`. The flag is only ever set.
unfoldable pub find_hide : (in_blanks : Bool) (left : ℕ) → List ℕ → Bool
find_hide in_blanks left [] = false
find_hide in_blanks left (c ∷ r) =
    let blank = c == 32 || c == 9 in
    let found = not blank && leb 6 left && starts_with_hide (c ∷ r) in
    let more = find_hide blank (left - 1) r in
    if not in_blanks && left == 0 then false else if found then true else more

-- The attributes of the tokens before and after a comment; ATTR_HIDE is the only one.
pub record Attributes : Type 0 where
  pub before : Bool
  pub after : Bool

unfoldable pub attribute_parser :
    (left : ℕ) → List ℕ → (after_newline : Bool) → Attributes → Attributes
unfolding find_hide
attribute_parser left rest after_newline a =
    if find_hide false left rest
    then (if after_newline then record a { after = true } else record a { before = true })
    else a

-- Where the loop over blanks and comments stops: at the end, or at a character of a token.
pub data Gap : Type 0 where
  at_end : Attributes → Gap
  at_token : (p : ℕ) (cc : CharClass) → Attributes → Gap

-- One turn of that loop: it stops, or goes on at another place.
pub data GapStep : Type 0 where
  stop : Gap → GapStep
  go : (p : ℕ) (after_newline : Bool) → Attributes → GapStep

-- A comment at `p` that ends at `n`; `r` is the text from `p` on.
unfoldable pub comment_step : ℕ → List ℕ → Bool → Attributes → ℕ → GapStep
unfolding attribute_parser
comment_step p r nl a n =
    if n == p then stop (at_token p cc_comment a) else go n nl (attribute_parser (n - p) r nl a)

unfoldable pub class_step : ℕ → ℕ → List ℕ → Bool → Attributes → CharClass → Run GapStep
unfolding comment_step
class_step p c r nl a k =
    if k =c cc_comment
    then elim (skip_comment p (c ∷ r)) [
      | done n ↦ done (comment_step p (c ∷ r) nl a n)
      | thrown ↦ thrown
      | out_of_fuel ↦ out_of_fuel
    ]
    else if k =c cc_none
    then done (go (p + 1) (nl || c == 10) a)
    else done (stop (at_token p k a))

unfoldable pub gap_step : ℕ → List ℕ → Bool → Attributes → Run GapStep
unfolding class_step
gap_step p [] nl a = done (stop (at_end a))
gap_step p (c ∷ r) nl a =
    if c == 0
    then done (stop (at_end a))
    else elim (char_class c) [ done k ↦ class_step p c r nl a k | _ ↦ thrown ]

unfoldable pub gap : ℕ → List ℕ → ℕ → (after_newline : Bool) → Attributes → Run Gap
unfolding gap_step
gap zero text p nl a = out_of_fuel
gap (suc k) text p nl a = elim (gap_step p (drop p text) nl a) [
  | done (stop g) ↦ done g
  | done (go q nl' a') ↦ gap k text q nl' a'
  | thrown ↦ thrown
  | out_of_fuel ↦ out_of_fuel
]

abbrev is_hex_letter : ℕ → Bool
is_hex_letter c = (leb b'a' c && leb c b'f') || (leb b'A' c && leb c b'F')

abbrev is_exponent : ℕ → Bool
is_exponent c = c == b'e' || c == b'E'

-- The scanner at a character `c`: `i` is its distance from the token's first one, `p1` and `p2` are
-- `s[-1]` and `s[-2]`, `n1` is `s[1]`.
pub record Around : Type 0 where
  pub c : ℕ
  pub i : ℕ
  pub p1 : ℕ
  pub p2 : ℕ
  pub n1 : ℕ

abbrev hex_starts : Around → Bool
hex_starts w = w.c == b'x' && leb 1 w.i && leb w.i 2 && w.p1 == b'0' && (w.i == 1 || w.p2 == b'-')

-- `case CC_ALPHA` of the switch
alpha_step : CharClass → Bool → Around → Option (CharClass × Bool)
alpha_step cc hex w =
    if cc =c cc_numeric && hex_starts w
    then some (cc, true)
    else if cc =c cc_numeric && hex && is_hex_letter w.c
    then some (cc, hex)
    else if (cc =c cc_numeric || cc =c cc_float) && is_exponent w.c
    then some (cc_float, hex)
    else if cc =c cc_symbol && not (w.p1 == b':')
    then some (cc_alpha, hex)
    else none

-- One turn of the scanning loop: the class and the hexadecimal mode to go on with, or a break.
unfoldable pub scan_step : CharClass → (ncc : CharClass) → Bool → Around → Option (CharClass × Bool)
unfolding alpha_step
scan_step cc ncc hex w = if cc =c ncc || cc =c cc_none then some (ncc, hex) else elim ncc [
  | cc_numeric ↦
      if cc =c cc_float
      then some (cc, hex)
      else if w.i == 1 && w.p1 == b'-'
      then some (cc_numeric, hex)
      else if cc =c cc_alpha
      then some (cc, hex)
      else none
  | cc_comment ↦ if cc =c cc_alpha || cc =c cc_symbol then some (cc, hex) else none
  | cc_dot ↦
      if w.n1 == b'.'
      then none
      else if cc =c cc_alpha
      then some (cc_none, hex)
      else if cc =c cc_numeric
      then some (cc_float, hex)
      else none
  | cc_alpha ↦ alpha_step cc hex w
  | cc_symbol ↦ if cc =c cc_float && ltb 0 w.i && is_exponent w.p1 then some (cc, hex) else none
  | _ ↦ none
]

abbrev pub head_or_nul : List ℕ → ℕ
head_or_nul [] = 0
head_or_nul (c ∷ r) = c

-- `while(++s < e && *s)`: the token's length and class. `n` characters are taken.
unfoldable pub scan : CharClass → (hex : Bool) → (n p1 p2 : ℕ) → List ℕ → Run (ℕ × CharClass)
scan cc hex n p1 p2 [] = done (n, cc)
scan cc hex n p1 p2 (c ∷ r) = if c == 0 then done (n, cc) else elim (char_class c) [
  | done ncc ↦
      elim (scan_step cc ncc hex (record { c = c; i = n; p1 = p1; p2 = p2; n1 = head_or_nul r })) [
        | none ↦ done (n, cc)
        | some (cc', hex') ↦ scan cc' hex' (n + 1) c p1 r
      ]
  | _ ↦ thrown
]

-- What `tok` returns: a null segment, or a token with its place, length and class.
pub data Tok : Type 0 where
  null : Attributes → Tok
  token : (p n : ℕ) → CharClass → Attributes → Tok

-- The label `done`: a dot counts as a symbol, and a trailing colon is left for the next token.
unfoldable pub finish : List ℕ → (p n : ℕ) → CharClass → Attributes → Tok
finish text p n cc a =
    token p (if ltb 1 n && get_or text (p + n - 1) 0 == b':' then n - 1 else n)
      (if cc =c cc_dot then cc_symbol else cc) a

-- From the first character of a token on.
unfoldable pub token_at : List ℕ → ℕ → CharClass → Attributes → Run Tok
unfolding scan scan_step finish
token_at text p cc a =
    if cc =c cc_string
    then elim (string_literal_end p (drop p text)) [
      | done n ↦ done (finish text p (n - p) cc a)
      | thrown ↦ thrown
      | out_of_fuel ↦ out_of_fuel
    ]
    else if cc =c cc_bracket || cc =c cc_comment || cc =c cc_comma
    then done (finish text p 1 cc a)
    else elim (scan cc false 1 (get_or text p 0) 0 (drop (p + 1) text)) [
      | done (n, cc') ↦ done (finish text p n cc' a)
      | thrown ↦ thrown
      | out_of_fuel ↦ out_of_fuel
    ]

-- `attr_before` holds the attributes of the token before, `attr_after` those of the one to come.
unfoldable pub tok : ℕ → List ℕ → ℕ → Attributes → Run Tok
unfolding gap token_at
tok fuel text s a = elim (gap fuel text s false a) [
  | done (at_end a') ↦ done (null a')
  | done (at_token p cc a') ↦ token_at text p cc a'
  | thrown ↦ thrown
  | out_of_fuel ↦ out_of_fuel
]
