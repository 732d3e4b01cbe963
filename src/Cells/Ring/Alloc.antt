-- ===== src/Cells/Ring/Alloc.antt =====
-- The allocation from the ring in `closure_alloc_cells` of cells.c.
use native.Mathlib.Omega.{arith}
use mathlib.Core.Path.{subst}
use poprc.Prelude.{
  ℕ, zero, suc, ◌+◌, ◌*◌, ◌≤◌, ◌<◌, ◌≡◌, refl, ap, sym, ◌∙◌, ◌⊎◌, inl, inr, Bool, true, ◌&&◌, not,
  List, [], ◌∷◌, ◌++◌, Option, none, some, ltb, leb, ◌==◌, length, length-append, Bool-cases,
  leb→le,
}
use poprc.Cells.Ring.{
  Pool, is_cell, is_free, cells_next, step_over, cell_alloc, alloc_all, find_chunk, from_ring,
}
use poprc.Cells.Ring.Links.{has, has-append}
use poprc.Cells.Ring.Remove.{IsRing, rotate, head_or, cells_next-IsRing}
use poprc.Cells.Ring.Take.{SameCells, cell_alloc-Without}
use poprc.Cells.Ring.Search.{
  IsFound, find_chunk-IsFound, find_chunk-ends, IsFound-later, rotate-has, length-rotate, found_lem,
  longer_lem,
}

abbrev pub within : (c n y : ℕ) → Bool
within c n y = leb c y && ltb y (c + n)

abbrev pub OnRing : (c n : ℕ) → Pool → List ℕ → Type 0
OnRing c n s ys = (i : ℕ) → c ≤ i → i < c + n → has i (s.cells_ptr ∷ ys) ≡ true

-- The ring of `s'` is that of `s` without the `n` cells from `c` on.
pub record IsTaken (n c : ℕ) (s : Pool) (ys : List ℕ) (s' : Pool) : Type 0 where
  pub rest : List ℕ
  pub ring : IsRing s' rest
  pub members :
      (y : ℕ) → has y (s'.cells_ptr ∷ rest) ≡ (has y (s.cells_ptr ∷ ys) && not (within c n y))
  pub same : SameCells s s'
  pub count : length ys ≡ length rest + n
  pub taken : OnRing c n s ys

abbrev pub AllOnRing : Pool → List ℕ → Type 0
AllOnRing s ys = (i : ℕ) → is_free s i ≡ true → has i (s.cells_ptr ∷ ys) ≡ true

-- The last cell of the ring is not given out.
pub cell_alloc-last :
    (s : Pool) (c : ℕ) → IsRing s [] → has c (s.cells_ptr ∷ []) ≡ true → cell_alloc c s ≡ none
unfolding cell_alloc step_over
cell_alloc-last s c r h =
    let same : c ≡ s.cells_ptr = ground arith in
    let self : (s.cells_ptr == s.cells_ptr) ≡ true = ground arith in
    let here : is_free s s.cells_ptr ≡ true = r.free s.cells_ptr (ground arith) in
    let cell : is_cell s s.cells_ptr ≡ true = ground (arith, here) in
    subst (λ t. cell_alloc t s ≡ none) (sym same)
      (rw (r.back, r.close, here, self) (rw (cell, r.back, r.close, self) refl))

within-suc :
    (n c z : ℕ) (b : Bool)
    → ((b && not (z == c)) && not (within (c + 1) n z)) ≡ (b && not (within c (suc n) z))
within-suc n c z b = ground arith

SameCells-trans : (s s' s'' : Pool) → SameCells s s' → SameCells s' s'' → SameCells s s''
SameCells-trans s s' s'' a b = record {
  size = b.size ∙ a.size;
  ops = b.ops ∙ a.ops;
  fresh = b.fresh ∙ a.fresh;
  count = b.count ∙ a.count;
}

alloc_all-suc :
    (n c : ℕ) (s s' : Pool)
    → cell_alloc c s ≡ some s'
    → alloc_all (suc n) c s ≡ alloc_all n (c + 1) s'
unfolding alloc_all
alloc_all-suc n c s s' e = rw (alloc_all, e) refl

-- Cells of the ring are taken off it one by one, as long as one is left.
pub alloc_all-IsTaken :
    (n c : ℕ) (s : Pool) (ys : List ℕ)
    → IsRing s ys
    → OnRing c n s ys
    → n ≤ length ys
    → (s' : Pool) × (alloc_all n c s ≡ some s') × IsTaken n c s ys s'
unfolding alloc_all
alloc_all-IsTaken zero c s ys r o h = (
  s,
  refl,
  record {
    rest = ys;
    ring = r;
    members = λ y. ground arith;
    same = record { size = refl; ops = refl; fresh = refl; count = refl };
    count = omega arith;
    taken = o;
  },
)
alloc_all-IsTaken (suc n) c s [] r o h = absurd (omega arith)
alloc_all-IsTaken (suc n) c s (y ∷ ys) r o h =
    let (s1, zs, e, w) = cell_alloc-Without s y ys c r (o c (omega arith) (omega arith)) in
    let (s', q, t) =
      alloc_all-IsTaken n (c + 1) s1 zs w.ring (λ i lo hi. w.members i ∙ ground (arith, o i))
        (omega (arith, w.count)) in
    (
      s',
      alloc_all-suc n c s s1 e ∙ q,
      record {
        rest = t.rest;
        ring = t.ring;
        members = λ z.
            t.members z
            ∙ ap (λ b. b && not (within (c + 1) n z)) (w.members z)
            ∙ within-suc n c z (has z (s.cells_ptr ∷ (y ∷ ys)));
        same = SameCells-trans s s1 s' w.same t.same;
        count = omega (arith, w.count, t.count);
        taken = o;
      },
    )

alloc_all-none :
    (n c : ℕ) (s : Pool) (ys : List ℕ)
    → IsRing s ys
    → OnRing c n s ys
    → length ys < n
    → alloc_all n c s ≡ none
unfolding alloc_all
alloc_all-none zero c s ys r o h = absurd (omega arith)
alloc_all-none (suc n) c s [] r o h =
    rw (alloc_all, cell_alloc-last s c r (o c (omega arith) (omega arith))) refl
alloc_all-none (suc n) c s (y ∷ ys) r o h =
    let (s1, zs, e, w) = cell_alloc-Without s y ys c r (o c (omega arith) (omega arith)) in
    alloc_all-suc n c s s1 e
    ∙ alloc_all-none n (c + 1) s1 zs w.ring (λ i lo hi. w.members i ∙ ground (arith, o i))
        (omega (arith, w.count))

-- What the allocation does with what the search has found
module _ (k size : ℕ) (s s1 : Pool) (p : cells_next s ≡ some (s.cells_ptr, s1)) where
  from_ring-none :
      find_chunk k size s.cells_ptr s.cells_ptr 0 s1 ≡ some none → from_ring k size s ≡ some none
  unfolding from_ring
  from_ring-none h = rw (from_ring, p, h) refl

  from_ring-some :
      (c : ℕ) (s2 : Pool) (r : Option Pool)
      → find_chunk k size s.cells_ptr s.cells_ptr 0 s1 ≡ some (some (c, s2))
      → alloc_all size c s2 ≡ r
      → from_ring k size s ≡ (elim r [ none ↦ some none | some s3 ↦ some (some (c, s3)) ])
  unfolding from_ring
  from_ring-some c s2 r h e = rw (from_ring, p, h, e) refl

-- Enough rounds for a search of `size` cells in a ring of `n + 1`.
abbrev pub enough_rounds : (n size : ℕ) → ℕ
enough_rounds n size = n * (size + 2) + size + 2

start_lem :
    (s : Pool) (ys : List ℕ)
    → head_or s.cells_ptr ys ∷ rotate s.cells_ptr ys ≡ ys ++ (s.cells_ptr ∷ [])
start_lem s [] = refl
start_lem s (y ∷ ys) = refl

found-IsTaken :
    (size c : ℕ) (s : Pool) (ys : List ℕ) (s2 : Pool)
    → (f : IsFound size c s ys s2) → (s' : Pool) → IsTaken size c s2 f.rest s'
    → IsTaken size c s ys s'
found-IsTaken size c s ys s2 f s' t = record {
  rest = t.rest;
  ring = t.ring;
  members = λ y. t.members y ∙ ap (λ b. b && not (within c size y)) (f.members y);
  same = SameCells-trans s s2 s' f.same t.same;
  count = sym f.count ∙ t.count;
  taken = λ i lo hi. sym (f.members i) ∙ t.taken i lo hi;
}

-- The state after `cells_next`
abbrev turned : Pool → List ℕ → Pool
turned s ys = record s { cells_ptr = head_or s.cells_ptr ys }

-- Either the allocation fails, or it takes a chunk of the ring out of it.
abbrev pub Outcome : (size : ℕ) → Pool → List ℕ → Option (Option (ℕ × Pool)) → Type 0
Outcome size s ys r =
    (r ≡ some none) ⊎ ((c : ℕ) × (s' : Pool) × (r ≡ some (some (c, s'))) × IsTaken size c s ys s')

-- The allocation of cells from the ring ends. It fails, or it takes a chunk of the ring out of it.
pub from_ring-IsTaken :
    (k size : ℕ) (s : Pool) (ys : List ℕ)
    → IsRing s ys
    → AllOnRing s ys
    → enough_rounds (length ys) size ≤ k
    → Outcome size s ys (from_ring k size s)
from_ring-IsTaken k size s ys r all h =
    let (found, e) =
      find_chunk-ends k size s.cells_ptr s.cells_ptr 0 (turned s ys) (rotate s.cells_ptr ys) ys []
        (cells_next-IsRing s ys r).1 (start_lem s ys) (omega (arith, h)) in
    by_found found e
  where
    by_chunk :
        (s1 : Pool) (c : ℕ) (s2 : Pool)
        → cells_next s ≡ some (s.cells_ptr, s1)
        → find_chunk k size s.cells_ptr s.cells_ptr 0 s1 ≡ some (some (c, s2))
        → IsFound size c s ys s2
        → Outcome size s ys (from_ring k size s)
    by_chunk s1 c s2 p e f =
        let on : OnRing c size s2 f.rest = λ i lo hi. f.members i ∙ all i (f.chunk i lo hi) in
        elim (Bool-cases (leb size (length f.rest))) [
          | inl b ↦
              let (s', q, t) =
                alloc_all-IsTaken size c s2 f.rest f.ring on (leb→le size (length f.rest) b) in
              inr (
                c,
                s',
                from_ring-some k size s s1 p c s2 (some s') e q,
                found-IsTaken size c s ys s2 f s' t,
              )
          | inr b ↦ inl (
              from_ring-some k size s s1 p c s2 none e
                (alloc_all-none size c s2 f.rest f.ring on (ground (arith, b))))
        ]

    by_found :
        (found : Option (ℕ × Pool))
        → find_chunk k size s.cells_ptr s.cells_ptr 0 (turned s ys) ≡ some found
        → Outcome size s ys (from_ring k size s)
    by_found none e = inl (from_ring-none k size s (turned s ys) (cells_next-IsRing s ys r).0 e)
    by_found (some (c, s2)) e =
        let f =
          find_chunk-IsFound k size s.cells_ptr s.cells_ptr 0 (turned s ys) (rotate s.cells_ptr ys)
            c s2 (cells_next-IsRing s ys r).1 (λ i lo hi. absurd (omega arith)) e in
        by_chunk (turned s ys) c s2 (cells_next-IsRing s ys r).0 e
          (IsFound-later size c (head_or s.cells_ptr ys) s ys s2 refl f)

-- The first cell of a ring of two cells or more can be had from it.
pub from_ring-one :
    (k : ℕ) (s : Pool) (y : ℕ) (ys : List ℕ)
    → IsRing s (y ∷ ys)
    → (s' : Pool) × (from_ring (suc (suc k)) 1 s ≡ some (some (s.cells_ptr, s')))
      × IsTaken 1 s.cells_ptr s (y ∷ ys) s'
from_ring-one k s y ys r =
    let a = s.cells_ptr in
    let s1 = record s { cells_ptr = y } in
    let on : OnRing a 1 s1 (ys ++ (a ∷ [])) = λ i lo hi.
      ap (λ t. has t (y ∷ (ys ++ (a ∷ [])))) {y = a} (omega (arith, lo, hi))
      ∙ ground (arith, has-append a ys (a ∷ [])) in
    let here : is_free s1 (a + 0) ≡ true =
      ap (λ t. is_free s t) {y = a} (omega arith) ∙ r.free a (ground arith) in
    let (moved, ring) = cells_next-IsRing s (y ∷ ys) r in
    let (s', q, t) =
      alloc_all-IsTaken 1 a s1 (ys ++ (a ∷ [])) ring on
        (omega (arith, length-append ys (a ∷ []))) in
    let e = longer_lem (suc k) 1 a a 0 s1 refl here ∙ found_lem k 1 a a 1 s1 refl in
    (
      s',
      from_ring-some (suc (suc k)) 1 s s1 moved a s1 (some s') e q,
      record {
        rest = t.rest;
        ring = t.ring;
        members = λ z. t.members z ∙ ap (λ b. b && not (within a 1 z)) (rotate-has a (y ∷ ys) z);
        same =
            SameCells-trans s s1 s' (record { size = refl; ops = refl; fresh = refl; count = refl })
              t.same;
        count = sym (length-rotate a (y ∷ ys)) ∙ t.count;
        taken = λ i lo hi. sym (rotate-has a (y ∷ ys) i) ∙ t.taken i lo hi;
      },
    )
