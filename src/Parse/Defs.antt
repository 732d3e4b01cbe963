-- ===== src/Parse/Defs.antt =====
-- Definitions and modules: `parse_def`, `check_def`, `parse_defs` and `parse_module` of
-- parse/parse.c, over the tokens of Token.Lex. A null pointer to a token is the end of the tokens.
pub mod Checks
pub mod Reading
pub mod Order
pub mod Load
mod Tests
use poprc.Prelude.{
  ℕ, zero, suc, Bool, true, false, ◌&&◌, ◌||◌, not, List, [], ◌∷◌, Option, none, some,
  if◌then◌else◌, ◌=t◌,
}
use poprc.Maps.{StringMap}
use poprc.Token.Class.{Run, done, thrown, out_of_fuel}
use poprc.Token.Lex.{Token}
use poprc.Lines.{Parsed, parse_rhs_expr}
use poprc.Parse.Strings.{Strings, string_at, seg_string}
use poprc.Parse.Words.{tok_seg, is_reserved, match, word_module, scan_attributes}
use poprc.Modules.{Module, make_module, module_set}

-- What `parse_def` reads, and the tokens behind it
pub record Definition : Type 0 where
  pub name : Token
  pub exprs : List (List Token)
  pub rest : List Token

-- The attributes of the colon are added to those of the name.
abbrev pub def_from : (n colon : Token) → Option Parsed → Option (Option Definition)
def_from n colon none = none
def_from n colon (some p) = elim p.res [
  | none ↦ some none
  | some l ↦ some (
      some
        (record { name = record n { hide = n.hide || colon.hide }; exprs = l; rest = p.left_over }))
]

-- The outer `none` is a failed assertion, the inner one is false.
unfoldable pub parse_def : List ℕ → List Token → Option (Option Definition)
parse_def text [] = some none
parse_def text (n ∷ []) = some none
parse_def text (n ∷ (colon ∷ ts)) =
    if not (is_reserved (tok_seg text n)) && match text (colon ∷ ts) (b':' ∷ [])
    then def_from n colon (parse_rhs_expr ts)
    else some none

-- The tokens from the first reserved word on
unfoldable pub check_reserved : List ℕ → List Token → List Token
check_reserved text [] = []
check_reserved text (t ∷ ts) =
    if not (is_reserved (tok_seg text t)) then check_reserved text ts else t ∷ ts

unfoldable pub has_io : List ℕ → List Token → Bool
has_io text [] = false
has_io text (t ∷ ts) = if not ((b'I' ∷ b'O' ∷ []) =t tok_seg text t) then has_io text ts else true

-- An expression of the kind `module name`: what is returned if it is not one; null if it is, or if
-- the tokens end where one is missing, and then the loop ends, too.
abbrev pub check_module : List ℕ → List Token → (more : List Token) → List Token
check_module text [] more = []
check_module text (t ∷ []) more = if match text (t ∷ []) word_module then [] else t ∷ []
check_module text (t ∷ (n ∷ [])) more =
    if match text (t ∷ []) word_module
    then if not (is_reserved (tok_seg text n)) then more else n ∷ []
    else t ∷ (n ∷ [])
check_module text (t ∷ (n ∷ (u ∷ ts))) more =
    if match text (t ∷ []) word_module
    then if not (is_reserved (tok_seg text n)) then u ∷ ts else n ∷ (u ∷ ts)
    else t ∷ (n ∷ (u ∷ ts))

abbrev pub check_modules : List ℕ → List (List Token) → List Token
check_modules text [] = []
check_modules text (p ∷ ps) = check_module text p (check_modules text ps)

abbrev pub or_else : List Token → List Token → List Token
or_else [] more = more
or_else (t ∷ ts) more = t ∷ ts

abbrev pub check_exprs : List ℕ → List (List Token) → List Token
check_exprs text [] = []
check_exprs text (p ∷ ps) = or_else (check_reserved text p) (check_exprs text ps)

-- The tokens from the first wrong one on
unfoldable pub check_def : List ℕ → List (List Token) → List Token
unfolding check_reserved
check_def text [] = []
check_def text (p ∷ ps) =
    if match text p word_module then check_modules text (p ∷ ps) else check_exprs text (p ∷ ps)

-- The list cell of a definition
pub record Def : Type 0 where
  pub exprs : List (List Token)
  pub hide : Bool
  pub module_name : List ℕ

module _ (m : StringMap Def) where
  pub record Defs : Type 0 where
    pub defs : Module Def m
    pub strings : Strings
    pub rest : List Token
    pub err : List Token

  abbrev pub def_of : List ℕ → Definition → Def
  def_of name d = record {
    exprs = d.exprs;
    hide = d.name.hide || scan_attributes d.exprs;
    module_name = name;
  }

  -- The loop of `parse_defs`; that a name is defined twice is a failed assertion.
  unfoldable pub defs_loop :
      ℕ → (text module_name : List ℕ) → List Token → Module Def m → Strings → Run Defs
  unfolding parse_def module_set check_def
  defs_loop zero text name toks c strs = out_of_fuel
  defs_loop (suc k) text name toks c strs = elim (parse_def text toks) [
    | none ↦ thrown
    | some none ↦ done (record { defs = c; strings = strs; rest = toks; err = [] })
    | some (some d) ↦ elim (module_set Def m c (tok_seg text d.name) (def_of name d) strs) [
      | none ↦ thrown
      | some (some old, c', strs') ↦ thrown
      | some (none, c', strs') ↦ elim (check_def text d.exprs) [
        | [] ↦ defs_loop k text name d.rest c' strs'
        | t ∷ ts ↦ done (record { defs = c'; strings = strs'; rest = d.rest; err = t ∷ ts })
      ]
    ]
  ]

  unfoldable pub parse_defs : ℕ → (text module_name : List ℕ) → List Token → Strings → Run Defs
  unfolding defs_loop make_module
  parse_defs k text name toks strs = defs_loop k text name toks (make_module Def m) strs
