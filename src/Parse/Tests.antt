-- ===== src/Parse/Tests.antt =====
-- The theorems on parse/parse.c at concrete instances.
use native.Mathlib.Omega.{arith}
use mathlib.Core.Option.{none-ne-some}
use poprc.Prelude.{
  ℕ, zero, suc, ◌<◌, ◌≡◌, refl, ap, sym, ◌∙◌, true, false, List, [], ◌∷◌, none, some, ◌==◌, ◌=t◌,
  =t→eq, Bool-cases, inl, inr, some_inj,
}
use poprc.Prelude.Int.{pos}
use poprc.Maps.{lookup}
use poprc.Maps.Entries.{entries_map}
use poprc.Parse.Strings.{Strings, string_at, seg_string, strings_drop}
use poprc.Parse.Strings.Storage.{strings_drop-seg_string}
use poprc.Parse.Symbols.{Symbols, parse_init, intern, symbol_string}
use poprc.Parse.Symbols.Table.{IsTable, IsInterned, intern-IsInterned}
use poprc.Parse.Symbols.Full.{parse_init-IsTable, intern-full}

abbrev two_strings : Strings
two_strings = record { strings_size = 20; below = 0 ∷ b'b' ∷ b'a' ∷ [] }

strings_drop-seg_string_example :
    (a : ℕ) × (st' : Strings) × (seg_string (b'c' ∷ b'd' ∷ []) two_strings ≡ some (a, st'))
    × (string_at st' a ≡ b'c' ∷ b'd' ∷ [])
    × (strings_drop st' ≡ some two_strings)
strings_drop-seg_string_example =
    strings_drop-seg_string (b'c' ∷ b'd' ∷ []) two_strings refl refl (omega arith)

intern-IsInterned_example :
    (v : ℕ) × (st' : Symbols (entries_map ℕ)) × (intern
        (entries_map ℕ)
        (b'U' ∷ b'p' ∷ [])
        (parse_init (entries_map ℕ))
      ≡ some (v, st'))
    × IsInterned (entries_map ℕ) (parse_init (entries_map ℕ)) (b'U' ∷ b'p' ∷ []) v st'
unfolding parse_init
intern-IsInterned_example =
    intern-IsInterned (entries_map ℕ) (parse_init (entries_map ℕ)) (b'U' ∷ b'p' ∷ [])
      (parse_init-IsTable (entries_map ℕ)) refl (omega arith) (omega arith)

-- A table of `n` symbols, whose names have one byte
abbrev many_entries : ℕ → List (List ℕ × ℕ)
many_entries zero = []
many_entries (suc n) = (suc n ∷ [], n) ∷ many_entries n

abbrev full_table : Symbols (entries_map ℕ)
full_table = record {
  strings = record { strings_size = 20; below = [] };
  symbols = record { room = 63; entries = many_entries 63 };
  symbol_index = λ v. suc v ∷ [];
}

many_numbered : (n v : ℕ) → v < n → lookup (suc v ∷ []) (many_entries n) ≡ some v
many_numbered zero v h = absurd (omega arith)
many_numbered (suc n) v h = elim (Bool-cases (suc v == suc n)) [
  | inl e ↦ rw e (ap (λ t. some t) (ground (arith, e)))
  | inr e ↦ rw e (many_numbered n v (ground (arith, e)))
]

many_named :
    (n : ℕ) (s : List ℕ) (v : ℕ) → lookup s (many_entries n) ≡ some v → (v < n) × (suc v ∷ [] ≡ s)
many_named zero s v h = absurd (none-ne-some v h)
many_named (suc n) s v h = elim (Bool-cases (s =t (suc n ∷ []))) [
  | inl e ↦
      let top : n ≡ v = some_inj (sym (hit e) ∙ h) in
      (omega (arith, top), ap (λ t. suc t ∷ []) (sym top) ∙ sym (=t→eq s (suc n ∷ []) e))
  | inr e ↦ let (below, name) = many_named n s v (sym (miss e) ∙ h) in (omega (arith, below), name)
]
  where
    hit : (s =t (suc n ∷ [])) ≡ true → lookup s (many_entries (suc n)) ≡ some n
    hit e = rw e refl

    miss : (s =t (suc n ∷ [])) ≡ false → lookup s (many_entries (suc n)) ≡ lookup s (many_entries n)
    miss e = rw e refl

full_table-IsTable : IsTable (entries_map ℕ) full_table
full_table-IsTable = record {
  size = refl;
  count = omega arith;
  whole = refl;
  numbered = λ v h. many_numbered 63 v h;
  named = λ s v h. many_named 63 s v h;
}

intern-full_example :
    (st' : Symbols (entries_map ℕ)) × (st'' : Symbols (entries_map ℕ)) × (intern
        (entries_map ℕ)
        (b'A' ∷ [])
        full_table
      ≡ some (63, st'))
    × (intern (entries_map ℕ) (b'B' ∷ []) st' ≡ some (63, st''))
    × (symbol_string (entries_map ℕ) st'' (pos 63) ≡ none)
intern-full_example =
    intern-full (entries_map ℕ) full_table (b'A' ∷ []) (b'B' ∷ []) full_table-IsTable refl refl refl
      refl refl (omega arith)
