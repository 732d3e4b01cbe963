-- ===== src/Parse/Defs/Load.antt =====
-- `parse_module` of parse/parse.c: a module is read, and stands among the modules under its name.
pub mod Loading
use poprc.Prelude.{ℕ, List, [], ◌∷◌, Option, none, some, if◌then◌else◌, true, false, Bool}
use poprc.Maps.{StringMap}
use poprc.Token.Class.{Run, done, thrown, out_of_fuel}
use poprc.Token.Lex.{Token}
use poprc.Parse.Strings.{Strings, string_at, seg_string}
use poprc.Parse.Words.{tok_seg, match, word_module}
use poprc.Parse.Defs.{Def, Defs, parse_defs}
use poprc.Modules.{Module, module_set}

module _ (m : StringMap Def) (mm : StringMap (Module Def m)) where
  pub record Loaded : Type 0 where
    pub name : List ℕ
    pub modules : Module (Module Def m) mm
    pub strings : Strings
    pub rest : List Token
    pub err : List Token

  -- `failed` has the tokens from the wrong one on; a module that is read may still have an error, in
  -- its last definition, and then the function returns false, too.
  pub data Result : Type 0 where
    failed : List Token → Result
    loaded : Loaded → Result

  abbrev pub enter : (name : List ℕ) → Module (Module Def m) mm → Run (Defs m) → Run Result
  enter name modules thrown = thrown
  enter name modules out_of_fuel = out_of_fuel
  enter name modules (done p) = elim (module_set (Module Def m) mm modules name p.defs p.strings) [
    | none ↦ thrown
    | some (some old, modules', strs) ↦ thrown
    | some (none, modules', strs) ↦ done (
        loaded
          (record { name = name; modules = modules'; strings = strs; rest = p.rest; err = p.err }))
  ]

  abbrev pub parse_body :
      ℕ → (text name : List ℕ) → List Token → Module (Module Def m) mm → Strings → Run Result
  parse_body k text name ts modules strs = elim (seg_string name strs) [
    | none ↦ thrown
    | some (a, strs') ↦ enter name modules (parse_defs m k text (string_at strs' a) ts strs')
  ]

  unfoldable pub parse_module :
      ℕ → (text : List ℕ) → List Token → Module (Module Def m) mm → Strings → Run Result
  parse_module k text [] modules strs = done (failed [])
  parse_module k text (t ∷ []) modules strs =
      if match text (t ∷ []) word_module then done (failed []) else done (failed (t ∷ []))
  parse_module k text (t ∷ (n ∷ [])) modules strs =
      if match text (t ∷ []) word_module then done (failed []) else done (failed (t ∷ (n ∷ [])))
  parse_module k text (t ∷ (n ∷ (colon ∷ ts))) modules strs =
      if match text (t ∷ []) word_module
      then if match text (colon ∷ []) (b':' ∷ [])
        then parse_body k text (tok_seg text n) ts modules strs
        else done (failed (colon ∷ ts))
      else done (failed (t ∷ (n ∷ (colon ∷ ts))))
