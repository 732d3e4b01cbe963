-- ===== src/Cells/Ring/Take.antt =====
-- `cell_alloc` of cells.c takes a cell off the ring.
use native.Mathlib.Omega.{arith}
use mathlib.Core.Path.{subst}
use poprc.Prelude.{
  ℕ, ◌+◌, ◌≡◌, refl, ap, sym, ◌∙◌, true, false, ◌&&◌, ◌||◌, not, List, [], ◌∷◌, ◌++◌, Option, none,
  some, ◌==◌, if◌then◌else◌, length, length-append,
}
use poprc.Cells.Ring.{Pool, is_free, cells_next, step_over, unlink, cell_alloc}
use poprc.Cells.Ring.Links.{has, Distinct, has-append, has-split, Distinct-apart, Distinct-right}
use poprc.Cells.Ring.Remove.{IsRing, cells_next-IsRing, neighbours, unlink-IsRing}

-- Only the links and the start of the ring have changed.
pub record SameCells (s s' : Pool) : Type 0 where
  pub size : s'.cells_size ≡ s.cells_size
  pub ops : s'.op ≡ s.op
  pub fresh : s'.uninitialized ≡ s.uninitialized
  pub count : s'.alloc_cnt ≡ s.alloc_cnt

-- The ring of `s'` is that of `s` without `c`.
pub record Without (s : Pool) (ys : List ℕ) (c : ℕ) (s' : Pool) (zs : List ℕ) : Type 0 where
  pub ring : IsRing s' zs
  pub members : (y : ℕ) → has y (s'.cells_ptr ∷ zs) ≡ (has y (s.cells_ptr ∷ ys) && not (y == c))
  pub same : SameCells s s'
  pub count : length ys ≡ length zs + 1

-- The assertions hold, once `cells_ptr` stands elsewhere, at `a`.
cell_alloc_lem :
    (s : Pool) (a c : ℕ) (xs zs : List ℕ)
    → step_over c s ≡ some (record s { cells_ptr = a })
    → IsRing (record s { cells_ptr = a }) (xs ++ (c ∷ zs))
    → cell_alloc c s ≡ some (unlink (s.prev c) (s.next c) (record s { cells_ptr = a }))
unfolding cell_alloc
cell_alloc_lem s a c xs zs e r =
    let (hp, cp, hn, cn) = neighbours (record s { cells_ptr = a }) xs c zs r in
    let whole = λ (y : ℕ). has-append y (a ∷ xs) (c ∷ zs) in
    let fc : is_free s c ≡ true = r.free c (ground (arith, whole c)) in
    let fp : is_free s (s.prev c) ≡ true =
      r.free (s.prev c) (ground (arith, whole (s.prev c), hp)) in
    let fn : is_free s (s.next c) ≡ true =
      r.free (s.next c) (ground (arith, whole (s.next c), hn)) in
    ground (arith, fc, fp, fn, cp, cn, e)

moved_pool : Option (ℕ × Pool) → Option Pool
moved_pool none = none
moved_pool (some (p, s)) = some s

step_over_here :
    (c p : ℕ) (s s' : Pool)
    → (s.cells_ptr == c) ≡ true
    → cells_next s ≡ some (p, s')
    → step_over c s ≡ some s'
unfolding step_over moved_pool
step_over_here c p s s' e h =
    ap (λ b. if b then moved_pool (cells_next s) else some s) e ∙ ap moved_pool h

step_over_else : (c : ℕ) (s : Pool) → (s.cells_ptr == c) ≡ false → step_over c s ≡ some s
unfolding step_over moved_pool
step_over_else c s e = ap (λ b. if b then moved_pool (cells_next s) else some s) e

members_lem :
    (a c : ℕ) (xs zs : List ℕ) (y : ℕ)
    → Distinct (a ∷ (xs ++ (c ∷ zs)))
    → has y (a ∷ (xs ++ zs)) ≡ (has y (a ∷ (xs ++ (c ∷ zs))) && not (y == c))
members_lem a c xs zs y d =
    let before : has c (a ∷ xs) ≡ false = Distinct-apart (a ∷ xs) (c ∷ zs) c d (ground arith) in
    let behind : has c zs ≡ false = (Distinct-right (a ∷ xs) (c ∷ zs) d).0 in
    let joined = has-append y (a ∷ xs) zs in
    let whole = has-append y (a ∷ xs) (c ∷ zs) in
    elim (y == c)
        as (λ b. (y == c) ≡ b → has y (a ∷ (xs ++ zs)) ≡ (has y (a ∷ (xs ++ (c ∷ zs))) && not b)) [
          | true ↦ λ e.
              let same : y ≡ c = ground arith in
              joined ∙ ap (λ t. has t (a ∷ xs) || has t zs) same ∙ ground (arith, before, behind)
          | false ↦ λ e. joined ∙ ground (arith, whole, e)
        ]
      refl

-- A ring of two cells or more stays a ring, of the others, when a cell is taken out.
pub cell_alloc-Without :
    (s : Pool) (y : ℕ) (ys : List ℕ) (c : ℕ)
    → IsRing s (y ∷ ys)
    → has c (s.cells_ptr ∷ (y ∷ ys)) ≡ true
    → (s' : Pool) × (zs : List ℕ) × (cell_alloc c s ≡ some s') × Without s (y ∷ ys) c s' zs
cell_alloc-Without s y ys c r h =
    let a = s.cells_ptr in
    elim (a == c)
        as (λ b.
          (a == c) ≡ b
          → (s' : Pool) × (zs : List ℕ) × (cell_alloc c s ≡ some s') × Without s (y ∷ ys) c s' zs) [
            | true ↦ λ e.
                let same : a ≡ c = ground arith in
                let (moved, turned) = cells_next-IsRing s (y ∷ ys) r in
                let s1 = record s { cells_ptr = y } in
                let ring : IsRing s1 (ys ++ (c ∷ [])) =
                  subst (λ t. IsRing s1 (ys ++ (t ∷ []))) same turned in
                (
                  unlink (s.prev c) (s.next c) s1,
                  ys ++ [],
                  cell_alloc_lem s y c ys [] (step_over_here c a s s1 e moved) ring,
                  record {
                    ring = unlink-IsRing s1 ys c [] ring;
                    members = λ z.
                        members_lem y c ys [] z ring.distinct
                        ∙ ground (arith, has-append z ys (c ∷ []), same);
                    same = record { size = refl; ops = refl; fresh = refl; count = refl };
                    count = omega (arith, length-append ys []);
                  },
                )
            | false ↦ λ e.
                let (xs, zs, q) = has-split c (y ∷ ys) (ground arith) in
                let ring : IsRing s (xs ++ (c ∷ zs)) = subst (λ t. IsRing s t) q r in
                (
                  unlink (s.prev c) (s.next c) s,
                  xs ++ zs,
                  cell_alloc_lem s a c xs zs (step_over_else c s e) ring,
                  record {
                    ring = unlink-IsRing s xs c zs ring;
                    members = λ z.
                        members_lem a c xs zs z ring.distinct
                        ∙ ap (λ t. has z (a ∷ t) && not (z == c)) (sym q);
                    same = record { size = refl; ops = refl; fresh = refl; count = refl };
                    count =
                        omega (arith, ap length q, length-append xs (c ∷ zs), length-append xs zs);
                  },
                )
          ]
      refl
