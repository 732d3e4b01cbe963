-- ===== src/Cells/Ring/Tests.antt =====
-- The theorems on the ring of cells.c at concrete instances.
use native.Mathlib.Omega.{arith}
use poprc.Prelude.{
  ℕ, ◌+◌, ◌-◌, ◌<◌, ◌≡◌, refl, ◌⊎◌, true, ◌&&◌, not, List, [], ◌∷◌, ◌++◌, Option, none, some, ltb,
  ◌==◌, if◌then◌else◌,
}
use poprc.Cells.Sizes.{calculate_cells, range_up}
use poprc.Cells.Ring.{
  Pool, cells_init, check_cycle, cell_alloc, free_toks, find_chunk, closure_alloc_cells,
  closure_shrink,
}
use poprc.Cells.Ring.Links.{has}
use poprc.Cells.Ring.Remove.{IsRing}
use poprc.Cells.Ring.Take.{Without, cell_alloc-Without}
use poprc.Cells.Ring.Search.{find_chunk-ends}
use poprc.Cells.Ring.Alloc.{OnRing, within}
use poprc.Cells.Ring.Account.{
  IsPool, cells_init-IsPool, closure_alloc_cells-fresh, closure_shrink-IsPool, free_toks-leaks,
}
use poprc.Cells.Ring.Cycle.{check_cycle-IsPool}
use poprc.Cells.Ring.Supply.{closure_alloc_cells-IsPool, closure_alloc_cells-one}

-- Six cells, of which the first three are on the ring and the others are a closure.
abbrev six_cells : Pool
six_cells = record {
  cells_size = 6;
  op = λ c. if ltb c 3 then 0 else 7;
  prev = λ c. if c == 0 then 2 else c - 1;
  next = λ c. if c == 2 then 0 else c + 1;
  cells_ptr = 0;
  uninitialized = none;
  alloc_cnt = 3;
}

abbrev six_cells_full : Pool
six_cells_full = record six_cells { uninitialized = some 6 }

IsRing-three : IsRing six_cells (1 ∷ 2 ∷ [])
IsRing-three = record {
  path = (refl, refl, (refl, refl, tt));
  close = refl;
  back = refl;
  distinct = (refl, (refl, (refl, tt)));
  free = λ c m. ground (arith, m);
}

IsPool-three : IsPool six_cells (1 ∷ 2 ∷ [])
IsPool-three = record {
  ring = IsRing-three;
  count = refl;
  used = λ i m. ground (arith, m);
  bound = omega arith;
}

cell_alloc-Without_example :
    (s' : Pool) × (zs : List ℕ) × (cell_alloc 1 six_cells ≡ some s')
    × Without six_cells (1 ∷ 2 ∷ []) 1 s' zs
cell_alloc-Without_example = cell_alloc-Without six_cells 1 (2 ∷ []) 1 IsRing-three refl

free_toks-leaks_example :
    IsRing (free_toks (4 ∷ 3 ∷ []) six_cells) ((1 ∷ 2 ∷ []) ++ (4 ∷ 3 ∷ []))
    × ((free_toks (4 ∷ 3 ∷ []) six_cells).alloc_cnt ≡ 3)
free_toks-leaks_example =
    free_toks-leaks (4 ∷ 3 ∷ []) six_cells (1 ∷ 2 ∷ []) IsRing-three
      (refl, omega arith, refl, (refl, omega arith, refl, tt))

find_chunk-ends_example :
    (found : Option (ℕ × Pool)) × (find_chunk 12 2 2 0 0 six_cells ≡ some found)
find_chunk-ends_example =
    find_chunk-ends 12 2 2 0 0 six_cells (1 ∷ 2 ∷ []) (0 ∷ 1 ∷ []) [] IsRing-three refl
      (omega arith)

cells_init-IsPool_example :
    (s' : Pool) × (cells_init six_cells ≡ some s')
    × IsPool s' (1 ∷ [])
    × (s'.cells_ptr ≡ 0)
    × (s'.alloc_cnt ≡ 0)
    × (s'.uninitialized ≡ some 2)
    × (s'.cells_size ≡ six_cells.cells_size)
cells_init-IsPool_example = cells_init-IsPool six_cells (omega arith)

abbrev fresh_cells : Pool
fresh_cells = record {
  cells_size = 6;
  op = λ c. 0;
  prev = λ c. if c == 0 then 1 else 0;
  next = λ c. if c == 0 then 1 else 0;
  cells_ptr = 0;
  uninitialized = some 2;
  alloc_cnt = 0;
}

IsPool-fresh : IsPool fresh_cells (1 ∷ [])
IsPool-fresh = record {
  ring = record {
    path = (refl, refl, tt);
    close = refl;
    back = refl;
    distinct = (refl, (refl, tt));
    free = λ c m. ground (arith, m);
  };
  count = refl;
  used = λ i m. ground (arith, m);
  bound = omega arith;
}

closure_alloc_cells-fresh_example :
    (s' : Pool) × (closure_alloc_cells 0 3 fresh_cells ≡ some (some (2, s')))
    × IsPool s' (1 ∷ [])
    × ((i : ℕ) → has i (s'.cells_ptr ∷ (1 ∷ [])) ≡ true → i < 2)
closure_alloc_cells-fresh_example =
    closure_alloc_cells-fresh 0 3 2 fresh_cells (1 ∷ []) IsPool-fresh refl (omega arith)
      (omega arith)

closure_shrink-IsPool_example :
    (s' : Pool) × (closure_shrink 9 3 1 six_cells ≡ some s')
    × IsPool s' ((1 ∷ 2 ∷ []) ++ range_up (3 + 1) (calculate_cells 9 - 1))
unfolding calculate_cells
closure_shrink-IsPool_example =
    closure_shrink-IsPool 9 3 1 six_cells (1 ∷ 2 ∷ []) IsPool-three refl refl (omega arith)
      (omega arith) (omega arith) (λ i lo hi. (ground (arith, lo), ground (arith, hi)))

closure_alloc_cells-IsPool_example :
    (closure_alloc_cells 40 2 six_cells ≡ some none)
    ⊎ ((c : ℕ) × (s' : Pool) × (zs : List ℕ) × (closure_alloc_cells 40 2 six_cells
          ≡ some (some (c, s')))
        × IsPool s' zs
        × ((i : ℕ)
            → has i (s'.cells_ptr ∷ zs)
              ≡ (has i (six_cells.cells_ptr ∷ (1 ∷ 2 ∷ [])) && not (within c 2 i)))
        × OnRing c 2 six_cells (1 ∷ 2 ∷ [])
        × (s'.alloc_cnt ≡ six_cells.alloc_cnt + 2))
closure_alloc_cells-IsPool_example =
    closure_alloc_cells-IsPool 40 2 six_cells (1 ∷ 2 ∷ []) IsPool-three refl
      (λ i f. ground (arith, f)) (omega arith) (omega arith)

closure_alloc_cells-one_example :
    (c : ℕ) × (s' : Pool) × (zs : List ℕ) × (closure_alloc_cells 2 1 six_cells
      ≡ some (some (c, s')))
    × IsPool s' zs
closure_alloc_cells-one_example = closure_alloc_cells-one 0 six_cells 1 (2 ∷ []) IsPool-three

check_cycle-IsPool_example : check_cycle six_cells ≡ some true
check_cycle-IsPool_example = check_cycle-IsPool six_cells (1 ∷ 2 ∷ []) IsPool-three
