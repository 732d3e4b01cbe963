-- ===== src/Cells/Ring.antt =====
-- The storage of cells.c: the ring of free cells and the cells that were never used. A cell is an
-- index into `cells`; `op` is the byte of that name, at the same place of every cell.
pub mod Links
pub mod Remove
pub mod Take
pub mod Give
pub mod Search
pub mod Alloc
pub mod Account
pub mod Supply
pub mod Cycle
mod Tests
use poprc.Prelude.{
  ℕ, zero, suc, ◌+◌, ◌-◌, Bool, true, false, ◌&&◌, not, Option, none, some, ltb, leb, ◌==◌,
  if◌then◌else◌, List, [], ◌∷◌,
}
use poprc.Cells.Sizes.{calculate_cells}

-- The file's variables, and the members of `mem_t` of each cell.
pub record Pool : Type 0 where
  pub cells_size : ℕ
  pub op : ℕ → ℕ
  pub prev : ℕ → ℕ
  pub next : ℕ → ℕ
  pub cells_ptr : ℕ
  pub uninitialized : Option ℕ
  pub alloc_cnt : ℕ

abbrev pub set : (ℕ → ℕ) → ℕ → ℕ → ℕ → ℕ
set f i v j = if j == i then v else f j

abbrev pub is_cell : Pool → ℕ → Bool
is_cell s c = ltb c s.cells_size

abbrev pub is_closure : Pool → ℕ → Bool
is_closure s c = not (s.op c == 0)

abbrev pub is_free : Pool → ℕ → Bool
is_free s c = is_cell s c && not (is_closure s c)

-- `none` is a failed assertion, in every function of this file.
unfoldable pub cells_next : Pool → Option (ℕ × Pool)
cells_next s =
    if is_free s s.cells_ptr && is_cell s (s.next s.cells_ptr)
    then some (s.cells_ptr, record s { cells_ptr = s.next s.cells_ptr })
    else none

-- Only the first two cells are cleared.
unfoldable pub cells_init : Pool → Option Pool
cells_init s =
    if leb 3 s.cells_size
    then some (record s {
      op = set (set s.op 0 0) 1 0;
      prev = set (set s.prev 0 1) 1 0;
      next = set (set s.next 0 1) 1 0;
      cells_ptr = 0;
      uninitialized = some 2;
      alloc_cnt = 0;
    })
    else none

-- `if(cells_ptr == c) cells_next()`
unfoldable pub step_over : ℕ → Pool → Option Pool
unfolding cells_next
step_over c s =
    if s.cells_ptr == c
    then elim (cells_next s) [ none ↦ none | some (p, s') ↦ some s' ]
    else some s

-- `prev->mem.next = next; next->mem.prev = prev`
abbrev pub unlink : (p n : ℕ) → Pool → Pool
unlink p n s = record s { next = set s.next p n; prev = set s.prev n p }

unfoldable pub cell_alloc : ℕ → Pool → Option Pool
unfolding step_over
cell_alloc c s =
    let p = s.prev c in
    let n = s.next c in
    if is_free s c && is_free s p && is_free s n
    then elim (step_over c s) [
      | none ↦ none
      | some s' ↦ if not (c == p) && not (c == n) then some (unlink p n s') else none
    ]
    else none

-- `COUNTUP(i, size) cell_alloc(&c[i])`
unfoldable pub alloc_all : (size c : ℕ) → Pool → Option Pool
unfolding cell_alloc
alloc_all zero c s = some s
alloc_all (suc size) c s = elim (cell_alloc c s) [
  | none ↦ none
  | some s' ↦ alloc_all size (c + 1) s'
]

-- The search for `size` contiguous cells: `c` is where the chunk starts, `cnt` cells of it are found.
-- The outer `none` is a lack of rounds.
unfoldable pub find_chunk : ℕ → (size mark c cnt : ℕ) → Pool → Option (Option (ℕ × Pool))
unfolding cells_next
find_chunk zero size mark c cnt s = none
find_chunk (suc k) size mark c cnt s =
    if leb size cnt then some (some (c, s)) else elim (is_free s (c + cnt)) [
      | true ↦ find_chunk k size mark c (cnt + 1) s
      | false ↦ elim (cells_next s) [
        | none ↦ some none
        | some (p, s') ↦ elim (p == mark) [
          | true ↦ some none
          | false ↦ find_chunk k size mark p 0 s'
        ]
      ]
    ]

-- The allocation from the ring
unfoldable pub from_ring : ℕ → ℕ → Pool → Option (Option (ℕ × Pool))
unfolding find_chunk alloc_all
from_ring k size s = elim (cells_next s) [
  | none ↦ some none
  | some (mark, s') ↦ elim (find_chunk k size mark mark 0 s') [
    | none ↦ none
    | some none ↦ some none
    | some (some (c, s'')) ↦ elim (alloc_all size c s'') [
      | none ↦ some none
      | some s''' ↦ some (some (c, s'''))
    ]
  ]
]

abbrev pub max_alloc_size : ℕ
max_alloc_size = 1024

abbrev pub count_alloc : ℕ → Option (Option (ℕ × Pool)) → Option (Option (ℕ × Pool))
count_alloc size none = none
count_alloc size (some none) = some none
count_alloc size (some (some (c, s))) = some (some (c, record s { alloc_cnt = s.alloc_cnt + size }))

unfoldable pub take_cells : ℕ → ℕ → Pool → Option (Option (ℕ × Pool))
unfolding from_ring
take_cells k size s =
    let forget = if size == 1 then record s { uninitialized = none } else s in
    elim s.uninitialized [
      | none ↦ from_ring k size forget
      | some u ↦
          if leb (u + size) s.cells_size
          then some (some (u, record s { uninitialized = some (u + size) }))
          else from_ring k size forget
    ]

unfoldable pub closure_alloc_cells : ℕ → ℕ → Pool → Option (Option (ℕ × Pool))
unfolding take_cells
closure_alloc_cells k size s =
    if leb size max_alloc_size && leb (s.alloc_cnt + size) s.cells_size
    then count_alloc size (take_cells k size s)
    else some none

-- `c->op = 0` and the links; nothing is asserted, and the count is left to the caller.
unfoldable pub cell_free : ℕ → Pool → Pool
cell_free c s =
    let last = s.prev s.cells_ptr in
    record s {
      op = set s.op c 0;
      next = set (set s.next c s.cells_ptr) last c;
      prev = set (set s.prev c last) s.cells_ptr c;
    }

-- `free_toks` of parse/lex.c, over the cells of the tokens in their order
unfoldable pub free_toks : List ℕ → Pool → Pool
unfolding cell_free
free_toks [] s = s
free_toks (t ∷ ts) s = free_toks ts (cell_free t s)

-- The loop of `closure_shrink` over `n` cells from `c` on, and what follows it.
unfoldable pub shrink_loop : (n c prev : ℕ) → Pool → Pool
shrink_loop zero c prev s = record s {
  prev = set s.prev s.cells_ptr prev;
  next = set s.next prev s.cells_ptr;
}
shrink_loop (suc n) c prev s =
    shrink_loop n (c + 1) c
      (record s { op = set s.op c 0; prev = set s.prev c prev; next = set s.next prev c })

-- `args` is the size of the closure at `c`.
unfoldable pub closure_shrink : (args c n : ℕ) → Pool → Option Pool
unfolding shrink_loop calculate_cells
closure_shrink args c n s =
    let size = calculate_cells args in
    if is_cell s c && is_closure s c
    then some (
        if ltb n size
        then (let s' = shrink_loop (size - n) (c + n) (s.prev s.cells_ptr) s in
            record s' { alloc_cnt = s.alloc_cnt - (size - n) })
        else s)
    else none

-- The loop of `check_cycle`; it gives up after `k` rounds.
unfoldable pub check_loop : (k start ptr : ℕ) → Pool → Option Bool
check_loop zero start ptr s = some (s.next ptr == start)
check_loop (suc k) start ptr s = elim (s.next ptr == start) [
  | true ↦ some true
  | false ↦ elim (is_cell s (s.next (s.next ptr))) [
    | true ↦ check_loop k start (s.next ptr) s
    | false ↦ none
  ]
]

unfoldable pub check_cycle : Pool → Option Bool
unfolding check_loop
check_cycle s = check_loop (s.cells_size + 1) s.cells_ptr s.cells_ptr s
