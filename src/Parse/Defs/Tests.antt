-- ===== src/Parse/Defs/Tests.antt =====
-- The theorems on words, modules and definitions at concrete instances.
use native.Mathlib.Omega.{arith}
use poprc.Prelude.{true, ℕ, ◌≡◌, ◌↔◌, ◌⊎◌, refl, false, List, [], ◌∷◌, Option, none, some}
use poprc.Maps.{StringMap}
use poprc.Maps.Entries.{entries_map}
use poprc.Token.Class.{Run, done, thrown, cc_alpha}
use poprc.Token.Lex.{Token, tok_indent}
use poprc.Parse.Strings.{Strings, seg_string}
use poprc.Parse.Words.{match_param_word, tok_seg}
use poprc.Parse.Words.Digits.{IsParamWord, match_param_word-IsParamWord}
use poprc.Parse.Defs.{Def, Defs, check_def, check_reserved, parse_def, defs_loop, parse_defs}
use poprc.Lines.{parse_rhs_expr, rhs_loop}
use poprc.Parse.Defs.Checks.{any_reserved, are_modules, check_def-words, check_def-modules}
use poprc.Parse.Defs.Order.{AreRead, parse_defs-AreRead}
use poprc.Parse.Defs.Load.{Loaded, Result, loaded, parse_module}
use poprc.Parse.Defs.Load.Loading.{IsLoaded, parse_module-BodyOutcome}
use poprc.Modules.{Module, make_module, expand_map, module_get, module_set}
use poprc.Modules.Update.{IsSetTo, module_set-IsSetTo}

match_param_word-IsParamWord_example :
    (match_param_word (b'a' ∷ b'p' ∷ []) (b'a' ∷ b'p' ∷ b'2' ∷ b'1' ∷ []) 1 1 ≡ done (some (2, 1)))
    ↔ IsParamWord (b'a' ∷ b'p' ∷ []) 1 1 (b'a' ∷ b'p' ∷ b'2' ∷ b'1' ∷ []) 2 1
match_param_word-IsParamWord_example =
    match_param_word-IsParamWord (b'a' ∷ b'p' ∷ []) (b'a' ∷ b'p' ∷ b'2' ∷ b'1' ∷ []) 1 1 2 1

abbrev no_strings : Strings
no_strings = record { strings_size = 40; below = [] }

module_set-IsSetTo_example :
    (c' : Module ℕ (entries_map ℕ)) × (strs' : Strings) × (module_set ℕ
        (entries_map ℕ)
        none
        (b'f' ∷ [])
        5
        no_strings
      ≡ some (module_get ℕ (entries_map ℕ) none (b'f' ∷ []), c', strs'))
    × IsSetTo ℕ (entries_map ℕ) none (b'f' ∷ []) 5 c'
module_set-IsSetTo_example =
    module_set-IsSetTo ℕ (entries_map ℕ) none (b'f' ∷ []) 5 no_strings tt refl (omega arith)

-- The text `module m:`, and on the next line `f: g h`
abbrev text : List ℕ
text =
    b'm' ∷ b'o' ∷ b'd' ∷ b'u' ∷ b'l' ∷ b'e' ∷ b' ' ∷ b'm' ∷ b':' ∷ 10 ∷ b'f' ∷ b':' ∷ b' ' ∷ b'g'
    ∷ b' ' ∷ b'h' ∷ 10 ∷ []

abbrev word : (location size line : ℕ) → Token
word a n l = record { location = a; length = n; line = l; class = cc_alpha; hide = false }

abbrev body : List Token
body = word 10 1 10 ∷ word 11 1 10 ∷ word 13 1 10 ∷ word 15 1 10 ∷ []

check_def-words_example :
    (check_def text ((word 13 1 10 ∷ word 15 1 10 ∷ []) ∷ []) ≡ [])
    ↔ (any_reserved text ((word 13 1 10 ∷ word 15 1 10 ∷ []) ∷ []) ≡ false)
check_def-words_example = check_def-words text (word 13 1 10 ∷ word 15 1 10 ∷ []) [] refl

check_def-modules_example :
    (check_def text ((word 0 6 0 ∷ word 7 1 0 ∷ []) ∷ []) ≡ [])
    ↔ (are_modules text ((word 0 6 0 ∷ word 7 1 0 ∷ []) ∷ []) ≡ true)
check_def-modules_example = check_def-modules text (word 0 6 0 ∷ word 7 1 0 ∷ []) [] refl refl

parse_defs-AreRead_example :
    (parse_defs (entries_map Def) 5 text [] body no_strings ≡ thrown)
    ⊎ ((p : Defs (entries_map Def)) × (parse_defs (entries_map Def) 5 text [] body no_strings
          ≡ done p)
        × AreRead (entries_map Def) text [] body none p)
parse_defs-AreRead_example =
    parse_defs-AreRead (entries_map Def) text [] 5 body no_strings refl (omega arith)

abbrev modules_map : StringMap (Module Def (entries_map Def))
modules_map = entries_map (Module Def (entries_map Def))

abbrev names_left : Run (Result (entries_map Def) modules_map) → Option (List ℕ × List Token)
names_left (done (loaded l)) = some (l.name, l.rest)
names_left r = none

module_loaded :
    names_left (
      parse_module
        (entries_map Def)
        modules_map
        5
        text
        (word 0 6 0 ∷ (word 7 1 0 ∷ (word 8 1 0 ∷ body)))
        none
        no_strings)
    ≡ some (b'm' ∷ [], [])
unfolding parse_module parse_defs defs_loop parse_def module_set module_get check_def check_reserved
    expand_map make_module seg_string parse_rhs_expr rhs_loop tok_indent
module_loaded = refl

parse_module-BodyOutcome_example :
    (parse_module
        (entries_map Def)
        modules_map
        5
        text
        (word 0 6 0 ∷ (word 7 1 0 ∷ (word 8 1 0 ∷ body)))
        none
        no_strings
      ≡ thrown)
    ⊎ ((l : Loaded (entries_map Def) modules_map) × (parse_module
            (entries_map Def)
            modules_map
            5
            text
            (word 0 6 0 ∷ (word 7 1 0 ∷ (word 8 1 0 ∷ body)))
            none
            no_strings
          ≡ done (loaded l))
        × IsLoaded (entries_map Def) modules_map text body (tok_seg text (word 7 1 0)) none l)
parse_module-BodyOutcome_example =
    parse_module-BodyOutcome (entries_map Def) modules_map text 5 (word 0 6 0) (word 7 1 0)
      (word 8 1 0) body none no_strings refl tt refl refl (omega arith)
