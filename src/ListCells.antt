-- ===== src/ListCells.antt =====
-- The lists of list.c and their iterators. A list is a cell with an array of pointers; the last
-- pointer of a row list is its row, and if the row is a list as well, the list goes on there.
pub mod Flat
pub mod Count
pub mod Rest
mod Tests
use poprc.Prelude.{
  ℕ, zero, suc, ◌+◌, ◌-◌, ◌%◌, ◌^◌, Bool, true, false, ◌&&◌, Option, none, some, ltb, ◌==◌,
  if◌then◌else◌, List, [], ◌∷◌,
}

mutual
  -- A cell that is no list, known by its address, or a list with its ROW flag and its pointers.
  pub data Cell : Type 0 where
    other : ℕ → Cell
    list : (row : Bool) → Cells → Cell

  pub data Cells : Type 0 where
    nil : Cells
    cons : Cell → Cells → Cells

abbrev pub count : Cells → ℕ
count nil = 0
count (cons x xs) = suc (count xs)

abbrev pub nth : Cells → ℕ → Cell
nth nil i = other 0
nth (cons x xs) zero = x
nth (cons x xs) (suc i) = nth xs i

-- The `n` pointers from place `i` on.
abbrev pub slice : (i n : ℕ) → Cells → Cells
slice i n nil = nil
slice (suc i) n (cons x xs) = slice i n xs
slice zero zero (cons x xs) = nil
slice zero (suc n) (cons x xs) = cons x (slice zero n xs)

abbrev pub is_list : Cell → Bool
is_list (other x) = false
is_list (list row ptr) = true

-- `list_iterator_t`; `none` is a null array.
pub record Iterator : Type 0 where
  pub array : Option Cells
  pub index : ℕ
  pub size : ℕ
  pub row : Bool

abbrev pub as_number : Bool → ℕ
as_number true = 1
as_number false = 0

-- `list_size(l) - row` in 16 bits
unfoldable pub list_begin : Bool → Cells → Iterator
list_begin row ptr = record {
  array = some ptr;
  index = 0;
  size = (count ptr + 2 ^ 16 - as_number row) % 2 ^ 16;
  row = row;
}

-- What `list_next` does with its iterator: a pointer and the iterator moved on, NULL, or `start`
-- again at the list in the row.
pub data Next : Type 0 where
  found : Cell → Iterator → Next
  null : Next
  again : Iterator → Next

unfoldable pub row_next : Iterator → Bool → Cell → Next
unfolding list_begin
row_next it include_row (list row ptr) = again (list_begin row ptr)
row_next it include_row (other x) =
    if include_row then found (other x) (record it { index = it.index + 1 }) else null

unfoldable pub next_step : Iterator → Cells → Bool → Next
unfolding row_next
next_step it ptr include_row =
    if ltb it.index it.size
    then found (nth ptr it.index) (record it { index = it.index + 1 })
    else if it.row && it.index == it.size
    then row_next it include_row (nth ptr it.size)
    else null

-- `none` is a lack of rounds; the cell is NULL or the pointer, the iterator is as it is left.
unfoldable pub list_next : ℕ → Iterator → Bool → Option (Option Cell × Iterator)
unfolding next_step
list_next zero it include_row = none
list_next (suc k) it include_row = elim it.array [
  | none ↦ some (none, it)
  | some ptr ↦ elim (next_step it ptr include_row) [
    | found x it' ↦ some (some x, it')
    | null ↦ some (none, it)
    | again it' ↦ list_next k it' include_row
  ]
]

-- The loop over rows of `list_remaining_size`, with `n` elements counted so far.
unfoldable pub remaining_loop : ℕ → (n : ℕ) → Iterator → Cells → Bool → Option ℕ
unfolding list_begin
remaining_loop zero n it ptr count_last_row = none
remaining_loop (suc k) n it ptr count_last_row =
    if it.row
    then elim (nth ptr it.size) [
      | list row ptr' ↦
          remaining_loop k ((n + (it.size - it.index)) % 2 ^ 16) (list_begin row ptr') ptr'
            count_last_row
      | other x ↦ some ((n + (it.size + as_number count_last_row - it.index)) % 2 ^ 16)
    ]
    else some ((n + (it.size - it.index)) % 2 ^ 16)

unfoldable pub list_remaining_size : ℕ → Iterator → Bool → Option ℕ
unfolding remaining_loop
list_remaining_size k it count_last_row = elim it.array [
  | none ↦ some 0
  | some ptr ↦ if ltb it.size it.index then some 0 else remaining_loop k 0 it ptr count_last_row
]

-- `FORLIST`: the pointers that the loop `x = list_next(&it, r)` sees, until it gets NULL. Each of its
-- steps may take `k` rounds.
unfoldable pub for_list : (steps k : ℕ) → Iterator → Bool → Option (List Cell)
unfolding list_next
for_list zero k it include_row = none
for_list (suc steps) k it include_row = elim (list_next k it include_row) [
  | none ↦ none
  | some (none, it') ↦ some []
  | some (some x, it') ↦ elim (for_list steps k it' include_row) [
    | none ↦ none
    | some xs ↦ some (x ∷ xs)
  ]
]

-- `list_rest`; `none` is NULL. The cell that owns the array has the ROW flag of the iterator.
unfoldable pub list_rest : Iterator → Option Cell
list_rest it = elim it.array [
  | none ↦ none
  | some ptr ↦
      let elems = (it.size + 2 ^ 16 - it.index + as_number it.row) % 2 ^ 16 in
      some (
        if it.index == 0
        then list it.row ptr
        else if elems == 1 && it.row && is_list (nth ptr it.size)
        then nth ptr it.size
        else list it.row (slice it.index elems ptr))
]
