-- ===== src/ListCells/Tests.antt =====
-- Lists with rows, as in the tests of list.c, and the theorems at them.
use native.Mathlib.Omega.{arith}
use poprc.Prelude.{◌≡◌, refl, true, false, [], ◌∷◌, some}
use poprc.ListCells.{
  Cell, other, list, Cells, nil, cons, list_begin, list_next, for_list, list_rest, is_list,
}
use poprc.ListCells.Rest.{flat_cell, list_rest-flat}
use poprc.ListCells.Flat.{IsAt, rest, Yields, list_begin-IsAt, list_next-Yields}
use poprc.ListCells.Count.{for_list-flat}

-- Two elements, and two more in the row.
abbrev two_and_two : Cells
two_and_two =
    cons (other 2) (cons (other 3) (cons (list false (cons (other 0) (cons (other 1) nil))) nil))

start-IsAt : IsAt (list_begin true two_and_two) two_and_two
start-IsAt = list_begin-IsAt true two_and_two (tt, omega arith) (omega arith)

list_next-Yields_example :
    Yields false
      (rest false (list_begin true two_and_two) two_and_two)
      3
      (list_next 3 (list_begin true two_and_two) false)
list_next-Yields_example =
    list_next-Yields 3 (list_begin true two_and_two) false two_and_two start-IsAt
      (unfold list_begin in omega arith)

for_list-flat_example :
    for_list 5 2 (list_begin true two_and_two) false
    ≡ some (other 2 ∷ other 3 ∷ other 0 ∷ other 1 ∷ [])
for_list-flat_example =
    for_list-flat 5 2 true false two_and_two (tt, omega arith) (omega arith) (omega arith)
      (omega arith)

-- Behind the first element
list_rest-flat_example :
    (c : Cell) × (list_rest (record { array = some two_and_two; index = 1; size = 2; row = true })
      ≡ some c)
    × (is_list c ≡ true)
    × (flat_cell false c ≡ other 3 ∷ other 0 ∷ other 1 ∷ [])
list_rest-flat_example =
    list_rest-flat (record { array = some two_and_two; index = 1; size = 2; row = true }) false
      two_and_two
      (record { held = refl; sized = refl; inside = omega arith; sound = (tt, omega arith) })
      (omega arith) (omega arith)
