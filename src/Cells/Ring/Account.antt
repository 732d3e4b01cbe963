-- ===== src/Cells/Ring/Account.antt =====
-- The account of the cells of cells.c: those on the ring, those given out and those never used.
use native.Mathlib.Omega.{arith}
use mathlib.Core.Path.{subst}
use mathlib.Core.List.{append-nil, append_assoc}
use poprc.Prelude.{
  ℕ, zero, suc, ◌+◌, ◌-◌, ◌≤◌, ◌<◌, ◌≡◌, refl, ap, sym, ◌∙◌, inl, inr, true, false, List, [], ◌∷◌,
  ◌++◌, none, some, leb, length, length-append, Bool-cases,
}
use poprc.Cells.Sizes.{calculate_cells, range_up}
use poprc.Cells.Sizes.Shrink.{length-range_up}
use poprc.Cells.Ring.{
  Pool, set, is_cell, is_closure, cells_init, take_cells, max_alloc_size, closure_alloc_cells,
  closure_shrink, cell_free, free_toks,
}
use poprc.Cells.Ring.Links.{has, has-append}
use poprc.Cells.Ring.Remove.{IsRing}
use poprc.Cells.Ring.Give.{Apart, SameSpace, cell_free-IsRing, closure_shrink-IsRing}

-- The cells below are given out or on the ring, those from it on were never used.
abbrev pub limit : Pool → ℕ
limit s = elim s.uninitialized [ none ↦ s.cells_size | some u ↦ u ]

pub record IsPool (s : Pool) (ys : List ℕ) : Type 0 where
  pub ring : IsRing s ys
  pub count : s.alloc_cnt + suc (length ys) ≡ limit s
  pub used : (i : ℕ) → has i (s.cells_ptr ∷ ys) ≡ true → i < limit s
  pub bound : limit s ≤ s.cells_size

-- With three cells or more, the first two, 0 and 1, make the first ring, from 0. No cell is counted as
-- given out, and the cells from 2 on were never used.
pub cells_init-IsPool :
    (s : Pool)
    → 3 ≤ s.cells_size
    → (s' : Pool) × (cells_init s ≡ some s')
      × IsPool s' (1 ∷ [])
      × (s'.cells_ptr ≡ 0)
      × (s'.alloc_cnt ≡ 0)
      × (s'.uninitialized ≡ some 2)
      × (s'.cells_size ≡ s.cells_size)
unfolding cells_init
cells_init-IsPool s h =
    let enough : leb 3 s.cells_size ≡ true = ground arith in
    (
      record s {
        op = set (set s.op 0 0) 1 0;
        prev = set (set s.prev 0 1) 1 0;
        next = set (set s.next 0 1) 1 0;
        cells_ptr = 0;
        uninitialized = some 2;
        alloc_cnt = 0;
      },
      rw enough refl,
      record {
        ring = record {
          path = (refl, refl, tt);
          close = refl;
          back = refl;
          distinct = (refl, (refl, tt));
          free = λ c m. ground (arith, m, h);
        };
        count = refl;
        used = λ i m. ground (arith, m);
        bound = omega (arith, h);
      },
      refl,
      refl,
      refl,
      refl,
    )

-- A closure of cells that were never used, if enough of them are left
pub closure_alloc_cells-fresh :
    (k size u : ℕ) (s : Pool) (ys : List ℕ)
    → IsPool s ys
    → s.uninitialized ≡ some u
    → size ≤ max_alloc_size
    → u + size ≤ s.cells_size
    → (s' : Pool) × (closure_alloc_cells k size s ≡ some (some (u, s')))
      × IsPool s' ys
      × ((i : ℕ) → has i (s'.cells_ptr ∷ ys) ≡ true → i < u)
unfolding closure_alloc_cells take_cells
closure_alloc_cells-fresh k size u s ys p e h w =
    let top : limit s ≡ u = ap (λ o. elim o [ none ↦ s.cells_size | some u ↦ u ]) e in
    let small : leb size 1024 ≡ true = ground arith in
    let some_left : leb (u + size) s.cells_size ≡ true = ground arith in
    let fits : leb (s.alloc_cnt + size) s.cells_size ≡ true = ground (arith, p.count, top) in
    (
      record s { uninitialized = some (u + size); alloc_cnt = s.alloc_cnt + size },
      rw (small, fits, e, some_left) refl,
      record {
        ring = record {
          path = p.ring.path;
          close = p.ring.close;
          back = p.ring.back;
          distinct = p.ring.distinct;
          free = p.ring.free;
        };
        count = omega (arith, p.count, top);
        used = λ i m. omega (arith, p.used i m, top);
        bound = omega (arith, w);
      },
      λ i m. omega (arith, p.used i m, top),
    )

cell_free-SameSpace : (c : ℕ) (s : Pool) → SameSpace s (cell_free c s)
unfolding cell_free
cell_free-SameSpace c s = record { size = refl; start = refl; fresh = refl }

cell_free-count : (c : ℕ) (s : Pool) → (cell_free c s).alloc_cnt ≡ s.alloc_cnt
unfolding cell_free
cell_free-count c s = refl

-- Cells that were given out, and are all different
abbrev pub GivenOut : List ℕ → Pool → List ℕ → Type 0
GivenOut [] s ys = Unit
GivenOut (t ∷ ts) s ys =
    (has t (s.cells_ptr ∷ ys) ≡ false) × (t < s.cells_size) × (has t ts ≡ false) × GivenOut ts s ys

GivenOut-later :
    (t : ℕ) (ts : List ℕ) (s : Pool) (ys : List ℕ)
    → has t ts ≡ false
    → GivenOut ts s ys
    → GivenOut ts (cell_free t s) (ys ++ (t ∷ []))
GivenOut-later t [] s ys h g = tt
GivenOut-later t (u ∷ ts) s ys h g =
    let same = cell_free-SameSpace t s in
    (
      ap (λ a. has u (a ∷ (ys ++ (t ∷ [])))) same.start
          ∙ ground (arith, g.0, h, has-append u ys (t ∷ [])),
      omega (arith, g.1, same.size),
      g.2,
      GivenOut-later t ts s ys (ground (arith, h)) g.3,
    )

-- Tokens that are freed stand at the end of the ring, in their order, but stay counted as given out.
pub free_toks-leaks :
    (ts : List ℕ) (s : Pool) (ys : List ℕ)
    → IsRing s ys
    → GivenOut ts s ys
    → IsRing (free_toks ts s) (ys ++ ts) × ((free_toks ts s).alloc_cnt ≡ s.alloc_cnt)
unfolding free_toks
free_toks-leaks [] s ys r g = (subst (IsRing s) (sym (append-nil ys)) r, refl)
free_toks-leaks (t ∷ ts) s ys r g =
    let (ring, count) =
      free_toks-leaks ts (cell_free t s) (ys ++ (t ∷ []))
        (cell_free-IsRing t s ys r g.0 (ground (arith, g.1))) (GivenOut-later t ts s ys g.2 g.3) in
    (
      subst (IsRing (free_toks ts (cell_free t s))) (append_assoc ys (t ∷ []) ts) ring,
      count ∙ cell_free-count t s,
    )

has-range_up : (i c n : ℕ) → has i (range_up c n) ≡ true → i < c + n
has-range_up i c zero h = absurd (ground (arith, h))
has-range_up i c (suc n) h = ground (arith, h, has-range_up i (c + 1) n)

-- The cells that a closure gives back are counted as free.
pub closure_shrink-IsPool :
    (args c n : ℕ) (s : Pool) (ys : List ℕ)
    → IsPool s ys
    → is_cell s c ≡ true
    → is_closure s c ≡ true
    → n < calculate_cells args
    → c + calculate_cells args ≤ limit s
    → calculate_cells args - n ≤ s.alloc_cnt
    → Apart (c + n) (calculate_cells args - n) s ys
    → (s' : Pool) × (closure_shrink args c n s ≡ some s')
      × IsPool s' (ys ++ range_up (c + n) (calculate_cells args - n))
closure_shrink-IsPool args c n s ys p k q h t g w =
    let (s', e, r, m, same) = closure_shrink-IsRing args c n s ys p.ring k q h w in
    let given = calculate_cells args - n in
    let top : limit s' ≡ limit s =
      ap (λ o. elim o [ none ↦ s'.cells_size | some u ↦ u ]) same.fresh
      ∙ ap (λ n. elim s.uninitialized [ none ↦ n | some u ↦ u ]) same.size in
    (
      s',
      e,
      record {
        ring = r;
        count = omega (
          arith,
          p.count,
          m,
          top,
          g,
          length-append ys (range_up (c + n) given),
          length-range_up (c + n) given,
        );
        used = λ i a. elim (Bool-cases (has i (s.cells_ptr ∷ ys))) [
          | inl b ↦ omega (arith, p.used i b, top)
          | inr b ↦
              let there : has i (range_up (c + n) given) ≡ true = ground (
                arith,
                b,
                has-append i ys (range_up (c + n) given),
                ap (λ a. has i (a ∷ (ys ++ range_up (c + n) given))) (sym same.start) ∙ a,
              ) in
              omega (arith, has-range_up i (c + n) given there, t, h, top)
        ];
        bound = omega (arith, top, same.size, p.bound);
      },
    )
