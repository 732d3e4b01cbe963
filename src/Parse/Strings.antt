-- ===== src/Parse/Strings.antt =====
-- The storage of strings of parse/parse.c: `seg_string` and `strings_drop`.
pub mod Storage
use poprc.Prelude.{
  ℕ, ◌+◌, ◌-◌, List, [], ◌∷◌, ◌++◌, Option, none, some, leb, ◌==◌, if◌then◌else◌, length, drop,
  c_string,
}
use mathlib.Core.List.{reverse}

-- `strings`, up to `strings_top`; `below` is what stands below it, the last byte first.
pub record Strings : Type 0 where
  pub strings_size : ℕ
  pub below : List ℕ

-- The string at an address
abbrev pub string_at : Strings → ℕ → List ℕ
string_at st a = c_string (drop a (reverse st.below))

-- The address of the copy; `none` is a failed `assert_throw`.
unfoldable pub seg_string : List ℕ → Strings → Option (ℕ × Strings)
seg_string s st =
    if leb (length s + 1) (st.strings_size - length st.below)
    then some (length st.below, record st { below = 0 ∷ (reverse s ++ st.below) })
    else none

-- The loop of `strings_drop`, behind its first round
abbrev pub drop_to_nul : List ℕ → List ℕ
drop_to_nul [] = []
drop_to_nul (x ∷ xs) = if x == 0 then x ∷ xs else drop_to_nul xs

-- `none` is a failed assertion.
unfoldable pub strings_drop : Strings → Option Strings
strings_drop st = elim st.below [ [] ↦ none | x ∷ xs ↦ some (record st { below = drop_to_nul xs }) ]
