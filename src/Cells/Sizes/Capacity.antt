-- ===== src/Cells/Sizes/Capacity.antt =====
-- How many cells the functions of cells.c calculate for closures, lists and maps.
use native.Mathlib.Omega.{arith}
use poprc.Prelude.{ℕ, ◌+◌, ◌*◌, ◌^◌, ◌≤◌, ◌<◌, ◌≡◌, ◌↔◌}
use poprc.Cells.Sizes.{
  calc_size, calculate_cells, calculate_args_from_cells, calculate_list_size, calculate_map_size,
}

-- `s` cells are enough for `n` arguments exactly if `calculate_cells n` is at most `s`. The count of
-- arguments that `s` cells have does not overflow 16 bits for `s` up to 6554.
pub calculate_cells-least :
    (n s : ℕ)
    → n < 2 ^ 16
    → 0 < s
    → s < 6555
    → (calculate_cells n ≤ s) ↔ (n ≤ calculate_args_from_cells s)
unfolding calculate_cells calculate_args_from_cells calc_size
calculate_cells-least n s h p q = ground arith

-- A list of `n` elements is allocated with two arguments more, and a map of `n` pairs with one
-- argument and two for each pair and for its header. Below the overflow of 16 bits the sizes agree
-- with `calculate_cells`.
pub calculate_list_size-cells :
    (n : ℕ)
    → 2 * n + 3 < 2 ^ 16
    → (calculate_list_size n ≡ calculate_cells (n + 2))
      × (calculate_map_size n ≡ calculate_cells (2 * (n + 1) + 1))
unfolding calculate_cells calculate_list_size calculate_map_size calc_size
calculate_list_size-cells n h = (ground arith, ground arith)
