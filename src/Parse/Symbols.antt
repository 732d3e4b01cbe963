-- ===== src/Parse/Symbols.antt =====
-- The table of symbols of parse/parse.c: `parse_init`, `intern` and `symbol_string`. A pointer into
-- `strings` that the table keeps stands for the text there.
pub mod Table
pub mod Full
use poprc.Prelude.{
  ℕ, ◌+◌, ◌-◌, ◌≤◌, ◌<◌, ◌≡◌, Bool, true, false, List, [], ◌∷◌, Option, none, some, ltb, ◌==◌,
  if◌then◌else◌, length, ◌=t◌, get_or,
}
use poprc.Prelude.Int.{ℤ, pos, negsuc}
use poprc.Maps.{StringMap}
use poprc.Parse.Strings.{Strings, string_at, seg_string, strings_drop}

abbrev pub symbols_size : ℕ
symbols_size = 64

abbrev pub strings_size : ℕ
strings_size = 16384

-- The names of the symbols, by their values
abbrev pub init_symbol_index : List (List ℕ)
init_symbol_index =
    (b'F' ∷ b'a' ∷ b'l' ∷ b's' ∷ b'e' ∷ [])
    ∷ (b'T' ∷ b'r' ∷ b'u' ∷ b'e' ∷ [])
    ∷ (b'I' ∷ b'O' ∷ [])
    ∷ (b'D' ∷ b'i' ∷ b'c' ∷ b't' ∷ [])
    ∷ (b'S' ∷ b'o' ∷ b'm' ∷ b'e' ∷ b't' ∷ b'h' ∷ b'i' ∷ b'n' ∷ b'g' ∷ [])
    ∷ (b'A' ∷ b'r' ∷ b'r' ∷ b'a' ∷ b'y' ∷ [])
    ∷ (b'F' ∷ b'i' ∷ b'l' ∷ b'e' ∷ [])
    ∷ []

-- The symbols in alphabetical order
abbrev pub init_symbols : List (List ℕ × ℕ)
init_symbols =
    ((b'A' ∷ b'r' ∷ b'r' ∷ b'a' ∷ b'y' ∷ []), 5)
    ∷ ((b'D' ∷ b'i' ∷ b'c' ∷ b't' ∷ []), 3)
    ∷ ((b'F' ∷ b'a' ∷ b'l' ∷ b's' ∷ b'e' ∷ []), 0)
    ∷ ((b'F' ∷ b'i' ∷ b'l' ∷ b'e' ∷ []), 6)
    ∷ ((b'I' ∷ b'O' ∷ []), 2)
    ∷ ((b'S' ∷ b'o' ∷ b'm' ∷ b'e' ∷ b't' ∷ b'h' ∷ b'i' ∷ b'n' ∷ b'g' ∷ []), 4)
    ∷ ((b'T' ∷ b'r' ∷ b'u' ∷ b'e' ∷ []), 1)
    ∷ []

module _ (m : StringMap ℕ) where
  -- `strings`, `symbols` and `symbol_index`
  pub record Symbols : Type 0 where
    pub strings : Strings
    pub symbols : m.Map
    pub symbol_index : ℕ → List ℕ

  unfoldable pub parse_init : Symbols
  parse_init = record {
    strings = record { strings_size = strings_size; below = [] };
    symbols = m.of_sorted (symbols_size - 1) init_symbols;
    symbol_index = λ v. get_or init_symbol_index v [];
  }

  -- A symbol that is not in the table yet, and whose copy is `s`
  abbrev pub add_symbol : List ℕ → Strings → Symbols → Option (ℕ × Symbols)
  add_symbol s strs st =
      let v = m.map_cnt st.symbols in
      if ltb v symbols_size
      then some (
        v,
        record {
          strings = strs;
          symbols = m.string_map_insert st.symbols s v;
          symbol_index = λ u. if u == v then s else st.symbol_index u;
        },
      )
      else none

  abbrev pub known : ℕ → Symbols → Option Strings → Option (ℕ × Symbols)
  known v st none = none
  known v st (some strs) = some (v, record st { strings = strs })

  -- `s` is the copy of the symbol, on top of `strs`; it is dropped if the table has the symbol.
  unfoldable pub find_symbol : List ℕ → Strings → Symbols → Option (ℕ × Symbols)
  find_symbol s strs st = elim (m.string_map_find st.symbols s) [
    | none ↦ add_symbol s strs st
    | some v ↦ known v st (strings_drop strs)
  ]

  -- `none` is a failed assertion.
  unfoldable pub intern : List ℕ → Symbols → Option (ℕ × Symbols)
  unfolding seg_string find_symbol
  intern sym st = elim (seg_string sym st.strings) [
    | none ↦ none
    | some (a, strs) ↦ find_symbol (string_at strs a) strs st
  ]

  -- `none` is a null pointer.
  unfoldable pub symbol_string : Symbols → ℤ → Option (List ℕ)
  symbol_string st (pos x) = if ltb x (m.map_cnt st.symbols) then some (st.symbol_index x) else none
  symbol_string st (negsuc x) = none
