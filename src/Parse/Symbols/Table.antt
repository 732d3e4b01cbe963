-- ===== src/Parse/Symbols/Table.antt =====
-- What `intern` of parse/parse.c keeps of the table of symbols.
use native.Mathlib.Omega.{arith}
use mathlib.Core.Option.{none-ne-some}
use poprc.Prelude.{
  ℕ, ◌+◌, ◌-◌, ◌≤◌, ◌<◌, ◌≡◌, refl, ap, sym, ◌∙◌, true, false, List, none, some, ltb, ◌==◌,
  if◌then◌else◌, length, ◌=t◌, =t→eq, nul_free, inl, inr, Option-cases, Bool-cases, some_inj,
}
use poprc.Prelude.Int.{pos}
use poprc.Parse.Strings.{Strings}
use poprc.Parse.Strings.Storage.{IsWhole, pushed, seg_string-pushed, read_lem, strings_drop-pushed}
use poprc.Maps.{StringMap}
use poprc.Parse.Symbols.{Symbols, symbols_size, find_symbol, known, intern, symbol_string}

-- The numbers of the symbols and the index agree.
pub record IsTable (m : StringMap ℕ) (st : Symbols m) : Type 0 where
  pub size : m.map_size st.symbols ≡ symbols_size - 1
  pub count : m.map_cnt st.symbols ≤ symbols_size - 1
  pub whole : IsWhole st.strings
  pub numbered :
      (v : ℕ) → v < m.map_cnt st.symbols → m.string_map_find st.symbols (st.symbol_index v) ≡ some v
  pub named :
      (s : List ℕ) (v : ℕ)
      → m.string_map_find st.symbols s ≡ some v
      → (v < m.map_cnt st.symbols) × (st.symbol_index v ≡ s)

-- There is room for a copy of the text.
abbrev pub Fits : List ℕ → Strings → Type 0
Fits s st = length st.below + length s + 1 ≤ st.strings_size

-- Different texts have different symbols, and the same text has one.
module _ (m : StringMap ℕ) (st : Symbols m) (text : List ℕ) where
  intern-copied :
      nul_free text ≡ true
      → Fits text st.strings
      → intern m text st ≡ find_symbol m text (pushed text st.strings) st
  unfolding intern
  intern-copied h f =
      rw (intern, seg_string-pushed text st.strings f)
        (ap (λ s. find_symbol m s (pushed text st.strings) st) (read_lem text st.strings h))

  intern-old :
      (v : ℕ)
      → nul_free text ≡ true
      → IsWhole st.strings
      → Fits text st.strings
      → m.string_map_find st.symbols text ≡ some v
      → intern m text st ≡ some (v, st)
  unfolding find_symbol
  intern-old v h w f e =
      intern-copied h f
      ∙ rw (find_symbol, e) (ap (known m v st) (strings_drop-pushed text st.strings h w))

  abbrev pub added : Symbols m
  added = record {
    strings = pushed text st.strings;
    symbols = m.string_map_insert st.symbols text (m.map_cnt st.symbols);
    symbol_index = λ u. if u == m.map_cnt st.symbols then text else st.symbol_index u;
  }

  pub intern-new :
      nul_free text ≡ true
      → Fits text st.strings
      → m.map_cnt st.symbols ≤ symbols_size - 1
      → m.string_map_find st.symbols text ≡ none
      → intern m text st ≡ some (m.map_cnt st.symbols, added)
  unfolding find_symbol
  intern-new h f c e =
      let room : ltb (m.map_cnt st.symbols) symbols_size ≡ true = ground arith in
      intern-copied h f ∙ rw (find_symbol, e, room) refl

  module _ (t : IsTable m st) (c : m.map_cnt st.symbols < symbols_size - 1)
      (new : m.string_map_find st.symbols text ≡ none) where
    room_lem : m.map_cnt st.symbols < m.map_size st.symbols
    room_lem = omega (arith, c, t.size)

    cnt_lem : m.map_cnt added.symbols ≡ m.map_cnt st.symbols + 1
    cnt_lem = m.cnt-insert st.symbols text (m.map_cnt st.symbols) room_lem

    added-find : m.string_map_find added.symbols text ≡ some (m.map_cnt st.symbols)
    added-find = m.find-insert st.symbols text (m.map_cnt st.symbols) room_lem new

    added-find_other :
        (s : List ℕ)
        → (s =t text) ≡ false
        → m.string_map_find added.symbols s ≡ m.string_map_find st.symbols s
    added-find_other s h = m.find-insert_other st.symbols text (m.map_cnt st.symbols) s room_lem h

    added-index : added.symbol_index (m.map_cnt st.symbols) ≡ text
    added-index = ground arith

    added-index_other :
        (u : ℕ) → u < m.map_cnt st.symbols → added.symbol_index u ≡ st.symbol_index u
    added-index_other u h = ground arith

    other_lem : (u : ℕ) → u < m.map_cnt st.symbols → (st.symbol_index u =t text) ≡ false
    other_lem u h = elim (Bool-cases (st.symbol_index u =t text)) [
      | inl e ↦ absurd (
          none-ne-some u (
            sym new
            ∙ ap (m.string_map_find st.symbols) (sym (=t→eq (st.symbol_index u) text e))
            ∙ t.numbered u h))
      | inr e ↦ e
    ]

    added-IsTable : IsTable m added
    added-IsTable = record {
      size = m.size-insert st.symbols text (m.map_cnt st.symbols) ∙ t.size;
      count = omega (arith, cnt_lem, c);
      whole = refl;
      numbered = λ v h. elim (Bool-cases (v == m.map_cnt st.symbols)) [
        | inl e ↦
            let top : v ≡ m.map_cnt st.symbols = ground (arith, e) in
            rw e (added-find ∙ ap (λ n. some n) (sym top))
        | inr e ↦
            let below : v < m.map_cnt st.symbols = ground (arith, e, h, cnt_lem) in
            rw e (added-find_other (st.symbol_index v) (other_lem v below) ∙ t.numbered v below)
      ];
      named = λ s v h. elim (Bool-cases (s =t text)) [
        | inl e ↦
            let same = =t→eq s text e in
            let top : v ≡ m.map_cnt st.symbols =
              some_inj (sym h ∙ ap (m.string_map_find added.symbols) same ∙ added-find) in
            (
              omega (arith, top, cnt_lem),
              ap (λ n. added.symbol_index n) top ∙ added-index ∙ sym same,
            )
        | inr e ↦
            let (below, name) = t.named s v (sym (added-find_other s e) ∙ h) in
            (omega (arith, below, cnt_lem), added-index_other v below ∙ name)
      ];
    }

symbol_string_lem :
    (m : StringMap ℕ) (st : Symbols m) (v : ℕ) (s : List ℕ)
    → v < m.map_cnt st.symbols
    → st.symbol_index v ≡ s
    → symbol_string m st (pos v) ≡ some s
unfolding symbol_string
symbol_string_lem m st v s h e =
    let below : ltb v (m.map_cnt st.symbols) ≡ true = ground arith in rw below (ap (λ t. some t) e)

-- A symbol is interned: it is found again under its number, and the others keep theirs.
pub record IsInterned (m : StringMap ℕ) (st : Symbols m) (text : List ℕ) (v : ℕ) (st' : Symbols m)
    : Type 0 where
  pub table : IsTable m st'
  pub name : symbol_string m st' (pos v) ≡ some text
  pub number : m.string_map_find st'.symbols text ≡ some v
  pub others :
      (u : ℕ) → u < m.map_cnt st.symbols → symbol_string m st' (pos u) ≡ symbol_string m st (pos u)

pub intern-IsInterned :
    (m : StringMap ℕ) (st : Symbols m) (text : List ℕ)
    → IsTable m st
    → nul_free text ≡ true
    → Fits text st.strings
    → m.map_cnt st.symbols < symbols_size - 1
    → (v : ℕ) × (st' : Symbols m) × (intern m text st ≡ some (v, st')) × IsInterned m st text v st'
intern-IsInterned m st text t h f c = elim (Option-cases (m.string_map_find st.symbols text)) [
  | inl e ↦ (
    m.map_cnt st.symbols,
    added m st text,
    intern-new m st text h f (omega (arith, c)) e,
    record {
      table = added-IsTable m st text t c e;
      name =
          symbol_string_lem m (added m st text) (m.map_cnt st.symbols) text
            (omega (arith, cnt_lem m st text t c e)) (added-index m st text t c e);
      number = added-find m st text t c e;
      others = λ u q.
          symbol_string_lem m (added m st text) u (st.symbol_index u)
            (omega (arith, q, cnt_lem m st text t c e)) (added-index_other m st text t c e u q)
          ∙ sym (symbol_string_lem m st u (st.symbol_index u) q refl);
    },
  )
  | inr (v, e) ↦ (
    v,
    st,
    intern-old m st text v h t.whole f e,
    record {
      table = t;
      name = symbol_string_lem m st v text (t.named text v e).0 (t.named text v e).1;
      number = e;
      others = λ u q. refl;
    },
  )
]

-- A text that has a symbol keeps it.
pub intern-again :
    (m : StringMap ℕ) (st : Symbols m) (text : List ℕ) (v : ℕ)
    → IsTable m st
    → nul_free text ≡ true
    → Fits text st.strings
    → symbol_string m st (pos v) ≡ some text
    → intern m text st ≡ some (v, st)
unfolding symbol_string
intern-again m st text v t h f e = elim (Bool-cases (ltb v (m.map_cnt st.symbols))) [
  | inl b ↦
      let name : st.symbol_index v ≡ text =
        some_inj
          (sym (symbol_string_lem m st v (st.symbol_index v) (ground (arith, b)) refl) ∙ e) in
      intern-old m st text v h t.whole f
        (ap (m.string_map_find st.symbols) (sym name) ∙ t.numbered v (ground (arith, b)))
  | inr b ↦ absurd (none-ne-some text (sym (symbol_string-none m st v b) ∙ e))
]
  where
    symbol_string-none :
        (m : StringMap ℕ) (st : Symbols m) (v : ℕ)
        → ltb v (m.map_cnt st.symbols) ≡ false
        → symbol_string m st (pos v) ≡ none
    symbol_string-none m st v b = rw b refl
