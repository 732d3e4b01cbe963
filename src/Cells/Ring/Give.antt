-- ===== src/Cells/Ring/Give.antt =====
-- `cell_free` and `closure_shrink` of cells.c put cells at the end of the ring.
use native.Mathlib.Omega.{arith}
use mathlib.Core.Path.{fun_ext}
use poprc.Prelude.{
  ℕ, zero, suc, ◌+◌, ◌-◌, ◌≤◌, ◌<◌, ◌≡◌, ◌≢◌, refl, ap, sym, ◌∙◌, true, false, List, [], ◌∷◌, ◌++◌,
  some, ltb,
}
use mathlib.Core.List.{append_assoc, append-nil}
use poprc.Cells.Sizes.{calculate_cells, range_up}
use poprc.Cells.Ring.{
  Pool, set, is_cell, is_closure, is_free, cell_free, shrink_loop, closure_shrink,
}
use poprc.Cells.Ring.Links.{
  has, Distinct, last, Linked, has-append, has-last, last-snoc, Distinct-snoc, Linked-snoc,
  Linked-frame_end, not-has_of_eq,
}
use poprc.Cells.Ring.Remove.{IsRing}

-- A ring that is cut behind its last cell, `l`.
record IsOpen (s : Pool) (ys : List ℕ) (l : ℕ) : Type 0 where
  path : Linked s.next s.prev s.cells_ptr ys
  end : last s.cells_ptr ys ≡ l
  distinct : Distinct (s.cells_ptr ∷ ys)
  free : (c : ℕ) → has c (s.cells_ptr ∷ ys) ≡ true → is_free s c ≡ true

open_lem : (s : Pool) (ys : List ℕ) → IsRing s ys → IsOpen s ys (s.prev s.cells_ptr)
open_lem s ys r = record { path = r.path; end = sym r.back; distinct = r.distinct; free = r.free }

set_other : (f : ℕ → ℕ) (i v y : ℕ) → y ≢ i → set f i v y ≡ f y
set_other f i v y h = ground arith

set_same : (f : ℕ → ℕ) (i v : ℕ) → set f i v i ≡ v
set_same f i v = ground arith

other_of_has : (c y : ℕ) (xs : List ℕ) → has c xs ≡ false → has y xs ≡ true → y ≢ c
other_of_has c y xs h m = not-has_of_eq y c xs m h

close_lem :
    (s : Pool) (ys : List ℕ) (l : ℕ)
    → IsOpen s ys l
    → IsRing (record s { prev = set s.prev s.cells_ptr l; next = set s.next l s.cells_ptr }) ys
close_lem s ys l o =
    let a = s.cells_ptr in
    record {
      path =
          Linked-frame_end s.next s.prev (set s.next l a) (set s.prev a l) a ys o.distinct
            (λ y m q. set_other s.next l a y (λ e. q (e ∙ sym o.end)))
            (λ y m. set_other s.prev a l y (other_of_has a y ys o.distinct.0 m)) o.path;
      close = ap (set s.next l a) o.end ∙ set_same s.next l a;
      back = set_same s.prev a l ∙ sym o.end;
      distinct = o.distinct;
      free = o.free;
    }

abbrev linked : (c l : ℕ) → Pool → Pool
linked c l s = record s { op = set s.op c 0; prev = set s.prev c l; next = set s.next l c }

linked-IsOpen :
    (s : Pool) (ys : List ℕ) (l c : ℕ)
    → IsOpen s ys l
    → has c (s.cells_ptr ∷ ys) ≡ false
    → is_cell s c ≡ true
    → IsOpen (linked c l s) (ys ++ (c ∷ [])) c
linked-IsOpen s ys l c o h k =
    let a = s.cells_ptr in
    record {
      path =
          Linked-snoc s.next s.prev (set s.next l c) (set s.prev c l) a c ys o.distinct
            (λ y m q. set_other s.next l c y (λ e. q (e ∙ sym o.end)))
            (λ y m. set_other s.prev c l y (other_of_has c y (a ∷ ys) h (ground arith)))
            (ap (set s.next l c) o.end ∙ set_same s.next l c) (set_same s.prev c l ∙ sym o.end)
            o.path;
      end = last-snoc a c ys;
      distinct = Distinct-snoc (a ∷ ys) c o.distinct h;
      free = λ y m. ground (arith, m, k, has-append y ys (c ∷ []), o.free y);
    }

-- The loop of `closure_shrink` lengthens the ring by its cells, in their order.
abbrev pub Apart : (c n : ℕ) → Pool → List ℕ → Type 0
Apart c n s ys =
    (i : ℕ) → c ≤ i → i < c + n → (has i (s.cells_ptr ∷ ys) ≡ false) × (is_cell s i ≡ true)

shrink_loop-IsRing :
    (n c l : ℕ) (s : Pool) (ys : List ℕ)
    → IsOpen s ys l
    → Apart c n s ys
    → IsRing (shrink_loop n c l s) (ys ++ range_up c n)
unfolding shrink_loop
shrink_loop-IsRing zero c l s ys o h = rw (append-nil ys) (close_lem s ys l o)
shrink_loop-IsRing (suc n) c l s ys o h =
    let (out, cell) = h c (omega arith) (omega arith) in
    rw (← append_assoc ys (c ∷ []) (range_up (c + 1) n)) (
      shrink_loop-IsRing n (c + 1) c (linked c l s) (ys ++ (c ∷ []))
        (linked-IsOpen s ys l c o out cell)
        (λ i lo hi. ground (arith, h i, has-append i ys (c ∷ []))))

-- `cell_free` does for one cell what the loop of `closure_shrink` does for many.
pub cell_free-shrink_loop :
    (c : ℕ) (s : Pool)
    → c ≢ s.cells_ptr
    → c ≢ s.prev s.cells_ptr
    → cell_free c s ≡ shrink_loop 1 c (s.prev s.cells_ptr) s
unfolding cell_free shrink_loop
cell_free-shrink_loop c s h k =
    let a = s.cells_ptr in
    let l = s.prev a in
    let nexts : set (set s.next c a) l c ≡ set (set s.next l c) c a = fun_ext λ y. ground arith in
    ap (λ f. record s { op = set s.op c 0; next = f; prev = set (set s.prev c l) a c }) nexts

-- A cell that is given back stands at the end of the ring.
pub cell_free-IsRing :
    (c : ℕ) (s : Pool) (ys : List ℕ)
    → IsRing s ys
    → has c (s.cells_ptr ∷ ys) ≡ false
    → is_cell s c ≡ true
    → IsRing (cell_free c s) (ys ++ (c ∷ []))
cell_free-IsRing c s ys r h k =
    let a = s.cells_ptr in
    rw
      (cell_free-shrink_loop c s (λ e. not-has_of_eq a c (a ∷ ys) (ground arith) h (sym e))
        (λ e. not-has_of_eq (last a ys) c (a ∷ ys) (has-last a ys) h (sym r.back ∙ sym e)))
      (shrink_loop-IsRing 1 c (s.prev a) s ys (open_lem s ys r) (λ i lo hi.
        let same : i ≡ c = omega arith in
        (ap (λ t. has t (a ∷ ys)) same ∙ h, ap (λ t. is_cell s t) same ∙ k)))

-- What the cells that are given back leave alone
pub record SameSpace (s s' : Pool) : Type 0 where
  pub size : s'.cells_size ≡ s.cells_size
  pub start : s'.cells_ptr ≡ s.cells_ptr
  pub fresh : s'.uninitialized ≡ s.uninitialized

shrink_loop-SameSpace : (n c l : ℕ) (s : Pool) → SameSpace s (shrink_loop n c l s)
unfolding shrink_loop
shrink_loop-SameSpace zero c l s = record { size = refl; start = refl; fresh = refl }
shrink_loop-SameSpace (suc n) c l s =
    let same = shrink_loop-SameSpace n (c + 1) c (linked c l s) in
    record { size = same.size; start = same.start; fresh = same.fresh }

-- The cells of a closure from the `n`th on are put at the end of the ring, in their order, and are
-- taken off the count of allocated cells.
pub closure_shrink-IsRing :
    (args c n : ℕ) (s : Pool) (ys : List ℕ)
    → IsRing s ys
    → is_cell s c ≡ true
    → is_closure s c ≡ true
    → n < calculate_cells args
    → Apart (c + n) (calculate_cells args - n) s ys
    → (s' : Pool) × (closure_shrink args c n s ≡ some s')
      × IsRing s' (ys ++ range_up (c + n) (calculate_cells args - n))
      × (s'.alloc_cnt ≡ s.alloc_cnt - (calculate_cells args - n))
      × SameSpace s s'
unfolding closure_shrink
closure_shrink-IsRing args c n s ys r k q h w =
    let given = calculate_cells args - n in
    let s' = shrink_loop given (c + n) (s.prev s.cells_ptr) s in
    let same = shrink_loop-SameSpace given (c + n) (s.prev s.cells_ptr) s in
    let more : ltb n (calculate_cells args) ≡ true = ground arith in
    let r' = shrink_loop-IsRing given (c + n) (s.prev s.cells_ptr) s ys (open_lem s ys r) w in
    (
      record s' { alloc_cnt = s.alloc_cnt - given },
      ground (arith, k, q, more),
      record {
        path = r'.path;
        close = r'.close;
        back = r'.back;
        distinct = r'.distinct;
        free = r'.free;
      },
      refl,
      record { size = same.size; start = same.start; fresh = same.fresh },
    )
