-- ===== src/ListCells/Rest.antt =====
-- `list_rest` of list.c: a list with the pointers that an iterator has still to return.
use native.Mathlib.Omega.{arith}
use poprc.Prelude.{
  ℕ, zero, suc, ◌+◌, ◌-◌, ◌%◌, ◌^◌, ◌≤◌, ◌<◌, ◌≡◌, refl, sym, ap, ◌∙◌, Bool, true, false, ◌&&◌,
  List, [], Option, none, some, ◌==◌, if◌then◌else◌,
}
use poprc.ListCells.{
  Cell, other, list, Cells, nil, cons, count, nth, slice, is_list, Iterator, as_number, list_rest,
}
use poprc.ListCells.Flat.{flat, drop_cells, rows, row_lem, IsAt, rest}

slice-drop_cells : (i n : ℕ) (ps : Cells) → count ps ≤ i + n → slice i n ps ≡ drop_cells i ps
slice-drop_cells zero n nil h = refl
slice-drop_cells (suc i) n nil h = refl
slice-drop_cells zero zero (cons x xs) h = absurd (omega arith)
slice-drop_cells zero (suc n) (cons x xs) h =
    ap (λ t. cons x t) (slice-drop_cells zero n xs (omega arith))
slice-drop_cells (suc i) n (cons x xs) h = slice-drop_cells i n xs (omega arith)

-- The pointers of a cell; one that is no list has none.
abbrev pub flat_cell : Bool → Cell → List Cell
flat_cell w (other x) = []
flat_cell w (list row ps) = flat w row ps

flat-row_list : (w : Bool) (c : Cell) → is_list c ≡ true → flat w true (cons c nil) ≡ flat_cell w c
flat-row_list w (list r qs) e = refl
flat-row_list w (other x) e = ground arith

as_number-le : (b : Bool) → as_number b ≤ 1
as_number-le true = omega arith
as_number-le false = omega arith

and_three : (b c d : Bool) → (b && c && d) ≡ true → (b ≡ true) × (c ≡ true) × (d ≡ true)
and_three true true true e = (refl, refl, refl)
and_three true true false e = ground arith
and_three true false d e = ground arith
and_three false c d e = ground arith

by_tests :
    (P : Cell → Type 0) (b d : Bool) (x y z : Cell)
    → (b ≡ true → P x)
    → (d ≡ true → P y)
    → P z
    → P (if b then x else if d then y else z)
by_tests P true d x y z p q r = p refl
by_tests P false true x y z p q r = q refl
by_tests P false false x y z p q r = r

-- An iterator that has not passed the row: `list_rest` returns a list, and its elements, rows
-- included, are those that are still to come.
pub list_rest-flat :
    (it : Iterator) (w : Bool) (ps : Cells)
    → IsAt it ps
    → it.index ≤ it.size
    → count ps < 2 ^ 16
    → (c : Cell) × (list_rest it ≡ some c) × (is_list c ≡ true) × (flat_cell w c ≡ rest w it ps)
unfolding list_rest
list_rest-flat it w ps a h k =
    let size_of = λ (n : ℕ). (n + 2 ^ 16 - it.index + as_number it.row) % 2 ^ 16 in
    let elems = size_of it.size in
    let joined = λ (ptr : Cells).
      (if it.index == 0
        then list it.row ptr
        else if elems == 1 && it.row && is_list (nth ptr it.size)
        then nth ptr it.size
        else list it.row (slice it.index elems ptr)) in
    let body : Option Cells → Option Cell =
      λ o. elim o [ none ↦ none | some ptr ↦ some (joined ptr) ] in
    let counted : it.index + elems ≡ count ps = omega (arith, a.sized, as_number-le it.row) in
    let fits = λ (c : Cell). (is_list c ≡ true) × (flat_cell w c ≡ rest w it ps) in
    let whole : it.index ≡ 0 → fits (list it.row ps) =
      λ e. (refl, sym (ap (λ j. flat w it.row (drop_cells j ps)) e)) in
    let row_only : (elems == 1 && it.row && is_list (nth ps it.size)) ≡ true
        → fits (nth ps it.size) =
      λ e.
        let (one, r, l) = and_three (elems == 1) it.row (is_list (nth ps it.size)) e in
        let single : elems ≡ 1 = ground (arith, one) in
        let place : it.index ≡ it.size = omega (arith, counted, single, a.sized, ap as_number r) in
        (
          l,
          sym (flat-row_list w (nth ps it.size) l)
              ∙ sym (row_lem (suc (rows it.row ps)) it w ps a (omega arith) r place),
        ) in
    let copied : fits (list it.row (slice it.index elems ps)) = (
      refl,
      ap (λ t. flat w it.row t) (slice-drop_cells it.index elems ps (omega (arith, counted))),
    ) in
    let (l, f) =
      by_tests fits (it.index == 0) (elems == 1 && it.row && is_list (nth ps it.size)) _ _ _
        (λ e. whole (ground arith)) row_only copied in
    (joined ps, ap body a.held, l, f)
