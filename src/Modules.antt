-- ===== src/Modules.antt =====
-- Modules: module.c. A module is a map from names to its definitions, or none yet; `V` stands for the
-- pointers to these.
pub mod Update
use poprc.Prelude.{ℕ, ◌+◌, List, [], ◌∷◌, Option, none, some, ltb, if◌then◌else◌}
use poprc.Maps.{StringMap}
use poprc.Parse.Strings.{Strings, string_at, seg_string}

module _ (V : Type 0) (m : StringMap V) where
  -- What `module_ref` points to; null is none.
  abbrev pub Module : Type 0
  Module = Option m.Map

  unfoldable pub make_module : Module
  make_module = none

  -- Room for `n` entries more
  unfoldable pub expand_map : Module → ℕ → m.Map
  expand_map none n = m.of_sorted n []
  expand_map (some c) n =
      if ltb (m.map_size c) (m.map_cnt c + n) then m.copy_into (m.map_size c + n) c else c

  unfoldable pub module_get : Module → List ℕ → Option V
  module_get none key = none
  module_get (some c) key = m.string_map_find c key

  -- A name that is not in the module yet: the copy of the name is the key. `none` is a failed
  -- assertion.
  abbrev pub add_to_map : Module → List ℕ → V → Strings → Option (Module × Strings)
  add_to_map c key val strs = elim (seg_string key strs) [
    | none ↦ none
    | some (a, strs') ↦
        some (some (m.string_map_insert (expand_map c 1) (string_at strs' a) val), strs')
  ]

  -- Both give the old value of the name, too.
  abbrev pub replaced : Module → V → V → List ℕ → Strings → Option (Option V × Module × Strings)
  replaced none old val key strs = some (some old, none, strs)
  replaced (some c) old val key strs = some (some old, some (m.set_second c key val), strs)

  abbrev pub without_old : Option (Module × Strings) → Option (Option V × Module × Strings)
  without_old none = none
  without_old (some (c, strs)) = some (none, c, strs)

  unfoldable pub module_set : Module → List ℕ → V → Strings → Option (Option V × Module × Strings)
  unfolding module_get
  module_set c key val strs = elim (module_get c key) [
    | some old ↦ replaced c old val key strs
    | none ↦ without_old (add_to_map c key val strs)
  ]

  -- `r` is the module that is made for a name without one.
  abbrev pub created : V → Option (Module × Strings) → Option (V × Module × Strings)
  created r none = none
  created r (some (c, strs)) = some (r, c, strs)

  unfoldable pub module_get_or_create :
      Module → List ℕ → V → Strings → Option (V × Module × Strings)
  unfolding module_get
  module_get_or_create c key r strs = elim (module_get c key) [
    | some found ↦ some (found, c, strs)
    | none ↦ created r (add_to_map c key r strs)
  ]
