-- ===== src/Parse/Symbols/Full.antt =====
-- The table of symbols of parse/parse.c at its start, and when it is full.
use native.Mathlib.Omega.{arith}
use mathlib.Core.Path.{subst}
use mathlib.Core.Option.{none-ne-some}
use mathlib.Core.List.{reverse}
use poprc.Prelude.{
  ℕ, ◌+◌, ◌-◌, ◌≤◌, ◌<◌, ◌≡◌, refl, ap, sym, ◌∙◌, true, false, List, [], ◌∷◌, none, some, length,
  ◌=t◌, =t→eq, nul_free, inl, inr, Bool-cases, some_inj, get_or, zero, suc, length-append,
  length-reverse,
}
use poprc.Prelude.Int.{pos}
use poprc.Maps.{StringMap, lookup}
use poprc.Parse.Symbols.{
  Symbols, symbols_size, init_symbols, init_symbol_index, parse_init, intern, symbol_string,
}
use poprc.Parse.Symbols.Table.{IsTable, intern-new, added}

AllEntries : (List ℕ → ℕ → Type 0) → List (List ℕ × ℕ) → Type 0
AllEntries P [] = Unit
AllEntries P ((k, v) ∷ ps) = P k v × AllEntries P ps

lookup-AllEntries :
    (P : List ℕ → ℕ → Type 0) (ps : List (List ℕ × ℕ)) (k : List ℕ) (v : ℕ)
    → AllEntries P ps
    → lookup k ps ≡ some v
    → P k v
unfolding AllEntries
lookup-AllEntries P [] k v a h = absurd (none-ne-some v h)
lookup-AllEntries P ((k', v') ∷ ps) k v a h = elim (Bool-cases (k =t k')) [
  | inl e ↦
      let value : v' ≡ v = some_inj (sym (hit e) ∙ h) in
      subst (λ t. P t v) (sym (=t→eq k k' e)) (subst (P k') value a.0)
  | inr e ↦ lookup-AllEntries P ps k v a.1 (sym (miss e) ∙ h)
]
  where
    hit : (k =t k') ≡ true → lookup k ((k', v') ∷ ps) ≡ some v'
    hit e = rw e refl

    miss : (k =t k') ≡ false → lookup k ((k', v') ∷ ps) ≡ lookup k ps
    miss e = rw e refl

abbrev NamedInIndex : List ℕ → ℕ → Type 0
NamedInIndex k v = (v < 7) × (get_or init_symbol_index v [] ≡ k)

init_entries : AllEntries NamedInIndex init_symbols
unfolding AllEntries
init_entries = (
  (omega arith, refl),
  (
    (omega arith, refl),
    (
      (omega arith, refl),
      (
        (omega arith, refl),
        ((omega arith, refl), ((omega arith, refl), ((omega arith, refl), tt))),
      ),
    ),
  ),
)

init_numbers : (v : ℕ) → v < 7 → lookup (get_or init_symbol_index v []) init_symbols ≡ some v
init_numbers zero h = refl
init_numbers (suc zero) h = refl
init_numbers (suc (suc zero)) h = refl
init_numbers (suc (suc (suc zero))) h = refl
init_numbers (suc (suc (suc (suc zero)))) h = refl
init_numbers (suc (suc (suc (suc (suc zero))))) h = refl
init_numbers (suc (suc (suc (suc (suc (suc zero)))))) h = refl
init_numbers (suc (suc (suc (suc (suc (suc (suc v))))))) h = absurd (omega arith)

-- The two lists of predefined symbols agree, and the one is sorted the way the map needs it.
pub parse_init-IsTable : (m : StringMap ℕ) → IsTable m (parse_init m)
unfolding parse_init
parse_init-IsTable m =
    let size = m.size-of_sorted (symbols_size - 1) init_symbols in
    let cnt = m.cnt-of_sorted (symbols_size - 1) init_symbols in
    let find : (k : List ℕ) → m.string_map_find (parse_init m).symbols k ≡ lookup k init_symbols =
      λ k.
        m.find-of_sorted (symbols_size - 1) init_symbols k
          (refl, (refl, (refl, (refl, (refl, (refl, tt)))))) in
    record {
      size = size;
      count = omega (arith, cnt);
      whole = refl;
      numbered = λ v h. find (get_or init_symbol_index v []) ∙ init_numbers v (omega (arith, cnt));
      named = λ s v h.
          let (below, name) =
            lookup-AllEntries NamedInIndex init_symbols s v init_entries (sym (find s) ∙ h) in
          (omega (arith, below, cnt), name);
    }

-- The 63 places of the map are taken, but the test is for 64: two new symbols get the same number,
-- and it has no name.
pub intern-full :
    (m : StringMap ℕ) (st : Symbols m) (a b : List ℕ)
    → IsTable m st
    → m.map_cnt st.symbols ≡ 63
    → nul_free a ≡ true
    → nul_free b ≡ true
    → m.string_map_find st.symbols a ≡ none
    → m.string_map_find st.symbols b ≡ none
    → length st.strings.below + length a + length b + 2 ≤ st.strings.strings_size
    → (st' : Symbols m) × (st'' : Symbols m) × (intern m a st ≡ some (63, st'))
      × (intern m b st' ≡ some (63, st''))
      × (symbol_string m st'' (pos 63) ≡ none)
unfolding symbol_string
intern-full m st a b t c ha hb na nb f =
    let st' = added m st a in
    let st'' = added m st' b in
    let same = m.insert-full st.symbols a (m.map_cnt st.symbols) (omega (arith, t.size, c)) in
    let c' : m.map_cnt st'.symbols ≡ 63 = ap m.map_cnt same ∙ c in
    let same' =
      m.insert-full st'.symbols b (m.map_cnt st'.symbols)
        (omega (arith, t.size, c', ap m.map_size same)) in
    let c'' : m.map_cnt st''.symbols ≡ 63 = ap m.map_cnt same' ∙ c' in
    (
      st',
      st'',
      intern-new m st a ha (omega (arith, f)) (omega (arith, c)) na ∙ ap (λ n. some (n, st')) c,
      intern-new m st' b hb
            (omega (arith, f, length-append (reverse a) st.strings.below, length-reverse a))
            (omega (arith, c')) (ap (λ s. m.string_map_find s b) same ∙ nb)
          ∙ ap (λ n. some (n, st'')) c',
      rw c'' refl,
    )
