-- ===== src/Cells/Sizes.antt =====
-- The sizes of closures in cells.c. A cell has 80 bytes; the arguments of a closure start at byte 48
-- of its first cell and run on through the cells behind it, 8 bytes each. `csize_t` has 16 bits.
pub mod Capacity
pub mod Shrink
use poprc.Prelude.{
  ℕ, zero, suc, ◌+◌, ◌-◌, ◌*◌, ◌/◌, ◌%◌, ◌^◌, ◌==◌, leb, ltb, if◌then◌else◌, List, [], ◌∷◌,
}

abbrev pub csize : ℕ → ℕ
csize n = n % 2 ^ 16

-- `calc_size(cell_t, f, n)` for a member `f` at byte `offset` whose elements have `width` bytes
unfoldable pub calc_size : (offset width n : ℕ) → ℕ
calc_size offset width n = (offset + width * n + 79) / 80

unfoldable pub calculate_cells : ℕ → ℕ
unfolding calc_size
calculate_cells n = if leb n 4 then 1 else csize (calc_size 48 8 n)

unfoldable pub calculate_args_from_cells : ℕ → ℕ
calculate_args_from_cells n = if n == 0 then 0 else csize (4 + 10 * (n - 1))

unfoldable pub calculate_list_size : ℕ → ℕ
unfolding calc_size
calculate_list_size n = csize (calc_size 64 8 n)

unfoldable pub calculate_map_size : ℕ → ℕ
unfolding calc_size
calculate_map_size n = csize (calc_size 56 16 (n + 1))

-- `_list_size`: how many elements a list of `size` arguments has
unfoldable pub list_size : ℕ → ℕ
list_size size = if ltb 2 size then size - 2 else 0

-- The cells from `s` up to `s + n`.
abbrev pub range_up : (s n : ℕ) → List ℕ
range_up s zero = []
range_up s (suc n) = s ∷ range_up (s + 1) n

-- `closure_shrink`: the cells that a closure of `size` arguments gives back, by their offsets.
unfoldable pub closure_shrink : (size s : ℕ) → List ℕ
unfolding calculate_cells
closure_shrink size s = range_up s (calculate_cells size - s)

-- `closure_shrink_list`: the cells that it gives back and the new size
unfoldable pub closure_shrink_list : (size n : ℕ) → List ℕ × ℕ
unfolding closure_shrink
closure_shrink_list size n = (closure_shrink size (csize (n + 2)), csize (n + 2))
