-- ===== src/Cells/Sizes/Shrink.antt =====
-- What `closure_shrink` and `closure_shrink_list` of cells.c give back.
use poprc.Prelude.{ℕ, zero, suc, ◌+◌, ◌-◌, ◌^◌, ◌<◌, ◌≡◌, refl, ap, length, arith}
use poprc.Cells.Sizes.{
  csize, calc_size, calculate_cells, range_up, closure_shrink, closure_shrink_list,
}

pub length-range_up : (s n : ℕ) → length (range_up s n) ≡ n
length-range_up s zero = refl
length-range_up s (suc n) = ap suc (length-range_up (s + 1) n)

-- Cells kept by a shrunk list, and cells that its new size accounts for, so that they are given
-- back when it is freed: the ones between the two are lost.
pub closure_shrink_list-lost :
    (size n : ℕ)
    → size < 2 ^ 16
    → n + 2 < calculate_cells size
    → (calculate_cells size ≡ length (closure_shrink_list size n).0 + (n + 2))
      × (calculate_cells (closure_shrink_list size n).1 < n + 2)
unfolding closure_shrink_list closure_shrink calculate_cells calc_size
closure_shrink_list-lost size n h q =
    let bound : calculate_cells size < 2 ^ 16 = ground arith in
    (
      omega (arith, length-range_up (csize (n + 2)) (calculate_cells size - csize (n + 2))),
      ground arith,
    )
